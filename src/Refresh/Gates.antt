-- ===== src/Refresh/Gates.antt =====
-- When a pass of the refresher calls a plugin: the throttle, the gate of the backoff, and what a failure
-- leaves in the cache.
use simple_lcp.Prelude.{
  ℕ, ◌+◌, ◌≤◌, String, ◌≡◌, ◌⊎◌, inl, inr, refl, ◌∙◌, subst, Bool, true, false, not, ◌&&◌, ◌||◌,
  List, [], ◌∷◌, string_eq, ltb, Bool-cases, Option-cases, arith, if◌then◌else◌,
}
use simple_lcp.Refresh.Rows.{Key, same_key, same_key_iff, put, is_stale}
use simple_lcp.Refresh.Pass.{
  Settings, Answer, raises, no_data, reports, gives, Call, Refresher, ttl, record_failure,
  no_answer, refreshed, scrape_answer, scrape, attempt, attempts, visited, pass,
}

pub put-same : {V : Type 0} → (k : Key) (v : V) (m : Key → V) → put k v m k ≡ v
unfolding put
put-same k v m = rw ((same_key_iff k k).1 refl) refl

pub put-other :
    {V : Type 0} → (j k : Key) (v : V) (m : Key → V) → same_key j k ≡ false → put j v m k ≡ m k
unfolding put
put-other j k v m e = rw e refl

module _ (P : Type 0) (G : Settings) where
  abbrev IsUntouched : Key → Refresher P G → Refresher P G → Type 0
  IsUntouched k s t = (t.last_attempt k ≡ s.last_attempt k) × (t.next_attempt k ≡ s.next_attempt k)

  no_answer-IsUntouched :
      (c : Call P) (j k : Key) (s : Refresher P G)
      → same_key j k ≡ false
      → IsUntouched k s (no_answer P G c j s)
  unfolding no_answer record_failure
  no_answer-IsUntouched c j k s e = elim (Option-cases (s.rows j)) [
    | inl none_there ↦ rw (no_answer, none_there) (refl, refl)
    | inr (row, there) ↦ rw (no_answer, there) (refl, put-other j k _ s.next_attempt e)
  ]

  pub scrape-IsUntouched :
      (a : Answer P) (c : Call P) (j k : Key) (s : Refresher P G)
      → same_key j k ≡ false
      → IsUntouched k s (scrape_answer P G a c j s)
  unfolding scrape_answer record_failure refreshed
  scrape-IsUntouched (raises d) c j k s e = (refl, put-other j k _ s.next_attempt e)
  scrape-IsUntouched no_data c j k s e = no_answer-IsUntouched c j k s e
  scrape-IsUntouched (reports kind d) c j k s e = (refl, put-other j k _ s.next_attempt e)
  scrape-IsUntouched (gives p) c j k s e = (refl, put-other j k _ s.next_attempt e)

  -- A key that was not called, or was free to be.
  abbrev IsGated : ℕ → Key → Refresher P G → Refresher P G → Type 0
  IsGated now k s t =
      IsUntouched k s t ⊎ ((s.last_attempt k + G.throttle ≤ now) × (s.next_attempt k ≤ now))

  called_or_other :
      (now : ℕ) (j k : Key) (s : Refresher P G) (c : Call P)
      → (same_key j k ≡ true) ⊎ (same_key j k ≡ false)
      → ltb now (s.last_attempt j + G.throttle) ≡ false
      → ltb now (s.next_attempt j) ≡ false
      → IsGated now k s
          (scrape_answer P G c.answer c j (record s { last_attempt = put j now s.last_attempt }))
  called_or_other now j k s c (inl same) e f = inr (
      subst (λ i. (s.last_attempt i + G.throttle ≤ now) × (s.next_attempt i ≤ now))
        ((same_key_iff j k).0 same) (ground arith, ground arith))
  called_or_other now j k s c (inr other) e f =
      let t = record s { last_attempt = put j now s.last_attempt } in
      let (last, next) = scrape-IsUntouched c.answer c j k t other in
      inl (last ∙ put-other j k now s.last_attempt other, next)

  if-IsGated :
      (now : ℕ) (k : Key) (s : Refresher P G) (b : Bool) (t u : Refresher P G)
      → IsGated now k s t
      → (b ≡ false → IsGated now k s u)
      → IsGated now k s (if b then t else u)
  if-IsGated now k s true t u g h = g
  if-IsGated now k s false t u g h = h refl

  attempt-IsGated :
      (now : ℕ) (forced : Bool) (call : Key → Call P) (j k : Key) (s : Refresher P G)
      → IsGated now k s (attempt P G now forced call j s)
  unfolding attempt scrape
  attempt-IsGated now forced call j k s =
      if-IsGated now k s (not forced && s.quiet j) s _ (inl (refl, refl)) (λ a.
        if-IsGated now k s (not forced && not (is_stale P now (ttl P G j) j s.rows)) s _
          (inl (refl, refl))
          (λ b.
            if-IsGated now k s (ltb now (s.last_attempt j + G.throttle)) _ _ (inl (refl, refl))
              (λ e.
                if-IsGated now k s (ltb now (s.next_attempt j)) s _ (inl (refl, refl))
                  (λ f. called_or_other now j k s (call j) (Bool-cases (same_key j k)) e f))))

  step-IsGated :
      (now : ℕ) (k : Key) (s t u : Refresher P G)
      → IsGated now k s t
      → IsGated now k t u
      → IsGated now k s u
  step-IsGated now k s t u (inr g) h = inr g
  step-IsGated now k s t u (inl (a, b)) (inl (c, d)) = inl (c ∙ a, d ∙ b)
  step-IsGated now k s t u (inl (a, b)) (inr (c, d)) = inr (omega arith, omega arith)

  attempts-IsGated :
      (now : ℕ) (forced : Key → Bool) (call : Key → Call P) (keys : List Key) (k : Key)
      (s : Refresher P G)
      → IsGated now k s (attempts P G now forced call keys s)
  unfolding attempts
  attempts-IsGated now forced call [] k s = inl (refl, refl)
  attempts-IsGated now forced call (j ∷ keys) k s =
      let t = attempt P G now (forced j) call j s in
      step-IsGated now k s t (attempts P G now forced call keys t)
        (attempt-IsGated now (forced j) call j k s) (attempts-IsGated now forced call keys k t)

  -- For every key, whatever is requested and whatever the plugins answer: either a pass leaves the time
  -- of the key's last call and the gate of its backoff as they are, or the throttle's time was over
  -- since its last call and its gate was passed.
  pub pass-IsGated :
      (now : ℕ) (supports : String → String → Bool) (providers : List String) (call : Key → Call P)
      (k : Key) (s : Refresher P G)
      → IsGated now k s (pass P G now supports providers call s)
  unfolding pass
  pass-IsGated now supports providers call k s =
      attempts-IsGated now (λ j. s.refresh_all || s.pending j) call (visited P G supports providers)
        k (record s { pending = λ j. false; refresh_all = false })
