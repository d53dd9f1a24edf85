-- ===== src/Refresh/Requests.antt =====
-- A request of a refresh in src/api/cost_cache.py is honoured by the next pass.
use simple_lcp.Prelude.{
  ℕ, ◌+◌, ◌≤◌, String, ◌≡◌, ◌⊎◌, inl, inr, refl, sym, ap, ◌∙◌, subst, Bool, true, false, not, ◌&&◌,
  ◌||◌, List, [], ◌∷◌, ltb, Bool-cases, Option-cases, arith, if◌then◌else◌,
}
use simple_lcp.Refresh.Rows.{Key, same_key, same_key_iff, put, is_stale}
use simple_lcp.Refresh.Pass.{
  Settings, Answer, raises, no_data, reports, gives, Call, Refresher, ttl, record_failure,
  no_answer, refreshed, scrape_answer, scrape, attempt, attempts, visited, pass, request_refresh,
}
use simple_lcp.Refresh.Gates.{put-same, put-other, scrape-IsUntouched}

abbrev pub IsAmong : Key → List Key → Type 0
IsAmong k [] = ⊥
IsAmong k (j ∷ keys) = (j ≡ k) ⊎ IsAmong k keys

later : (j k : Key) (keys : List Key) → same_key j k ≡ false → IsAmong k (j ∷ keys) → IsAmong k keys
later j k keys e (inl same) = ground (arith, same_key_iff j k)
later j k keys e (inr more) = more

not_before : (now t : ℕ) → t ≤ now → ltb now t ≡ false
not_before now t h = ground arith

asked : (b : Bool) (k : Key) (m : Key → Bool) → (b || put k true m k) ≡ true
asked true k m = refl
asked false k m = put-same k true m

gate_open : (now : ℕ) (k : Key) (m : Key → ℕ) → put k 0 m k ≤ now
gate_open now k m = rw (put-same k 0 m) (omega arith)

module _ (P : Type 0) (G : Settings) where
  no_answer-last_attempt :
      (c : Call P) (j : Key) (s : Refresher P G)
      → (no_answer P G c j s).last_attempt ≡ s.last_attempt
  unfolding no_answer record_failure
  no_answer-last_attempt c j s = elim (Option-cases (s.rows j)) [
    | inl none_there ↦ rw (no_answer, none_there) refl
    | inr (row, there) ↦ rw (no_answer, there) refl
  ]

  scrape-last_attempt :
      (a : Answer P) (c : Call P) (j : Key) (s : Refresher P G)
      → (scrape_answer P G a c j s).last_attempt ≡ s.last_attempt
  unfolding scrape_answer record_failure refreshed
  scrape-last_attempt (raises d) c j s = refl
  scrape-last_attempt no_data c j s = no_answer-last_attempt c j s
  scrape-last_attempt (reports kind d) c j s = refl
  scrape-last_attempt (gives p) c j s = refl

  if-holds :
      (I : Refresher P G → Type 0) (b : Bool) (t u : Refresher P G)
      → I t
      → I u
      → I (if b then t else u)
  if-holds I true t u g h = g
  if-holds I false t u g h = h

  called-last_attempt :
      (now : ℕ) (c : Call P) (j k : Key) (s : Refresher P G)
      → (s.last_attempt k ≡ now) ⊎ (j ≡ k)
      → (scrape P G c j (record s { last_attempt = put j now s.last_attempt })).last_attempt k ≡ now
  unfolding scrape put
  called-last_attempt now c j k s h =
      ap (λ m. m k)
        (scrape-last_attempt c.answer c j (record s { last_attempt = put j now s.last_attempt }))
      ∙ elim (Bool-cases (same_key j k)) [
        | inl e ↦ rw e refl
        | inr e ↦ elim h [ inl last ↦ rw e last | inr same ↦ ground (arith, same_key_iff j k) ]
      ]

  attempt_stays :
      (now : ℕ) (forced : Bool) (call : Key → Call P) (j k : Key) (s : Refresher P G)
      → s.last_attempt k ≡ now
      → (attempt P G now forced call j s).last_attempt k ≡ now
  unfolding attempt
  attempt_stays now forced call j k s h =
      let I = λ (t : Refresher P G). t.last_attempt k ≡ now in
      if-holds I (not forced && s.quiet j) _ _ h (
        if-holds I (not forced && not (is_stale P now (ttl P G j) j s.rows)) _ _ h (
          if-holds I (ltb now (s.last_attempt j + G.throttle)) _ _ h (
            if-holds I (ltb now (s.next_attempt j)) _ _ h
              (called-last_attempt now (call j) j k s (inl h)))))

  attempts_stay :
      (now : ℕ) (forced : Key → Bool) (call : Key → Call P) (keys : List Key) (k : Key)
      (s : Refresher P G)
      → s.last_attempt k ≡ now
      → (attempts P G now forced call keys s).last_attempt k ≡ now
  unfolding attempts
  attempts_stay now forced call [] k s h = h
  attempts_stay now forced call (j ∷ keys) k s h =
      attempts_stay now forced call keys k _ (attempt_stays now (forced j) call j k s h)

  -- The key may be called now.
  abbrev IsReady : ℕ → Key → Refresher P G → Type 0
  IsReady now k s = (s.last_attempt k + G.throttle ≤ now) × (s.next_attempt k ≤ now)

  forced_is_called :
      (now : ℕ) (call : Key → Call P) (k : Key) (s : Refresher P G)
      → IsReady now k s
      → (attempt P G now true call k s).last_attempt k ≡ now
  unfolding attempt
  forced_is_called now call k s (last, next) =
      rw
        (
          not_before now (s.last_attempt k + G.throttle) last,
          not_before now (s.next_attempt k) next,
        )
        (called-last_attempt now (call k) k k s (inr refl))

  scraped_other :
      (now : ℕ) (c : Call P) (j k : Key) (s : Refresher P G)
      → same_key j k ≡ false
      → IsReady now k s
      → IsReady now k
          (scrape_answer P G c.answer c j (record s { last_attempt = put j now s.last_attempt }))
  scraped_other now c j k s e (last, next) =
      let t = record s { last_attempt = put j now s.last_attempt } in
      let (a, b) = scrape-IsUntouched P G c.answer c j k t e in
      let unmoved = a ∙ put-other j k now s.last_attempt e in (omega arith, omega arith)

  other_stays-IsReady :
      (now : ℕ) (forced : Bool) (call : Key → Call P) (j k : Key) (s : Refresher P G)
      → same_key j k ≡ false
      → IsReady now k s
      → IsReady now k (attempt P G now forced call j s)
  unfolding attempt scrape
  other_stays-IsReady now forced call j k s e h =
      let I = IsReady now k in
      if-holds I (not forced && s.quiet j) _ _ h (
        if-holds I (not forced && not (is_stale P now (ttl P G j) j s.rows)) _ _ h (
          if-holds I (ltb now (s.last_attempt j + G.throttle)) _ _ h
            (if-holds I (ltb now (s.next_attempt j)) _ _ h (scraped_other now (call j) j k s e h))))

  attempts_call :
      (now : ℕ) (forced : Key → Bool) (call : Key → Call P) (keys : List Key) (k : Key)
      (s : Refresher P G)
      → forced k ≡ true
      → IsAmong k keys
      → IsReady now k s
      → (attempts P G now forced call keys s).last_attempt k ≡ now
  unfolding attempts
  attempts_call now forced call [] k s f among h = elim among [ ]
  attempts_call now forced call (j ∷ keys) k s f among h = elim (Bool-cases (same_key j k)) [
    | inl e ↦ attempts_stay now forced call keys k _ (
        subst (λ i. (attempt P G now (forced i) call i s).last_attempt k ≡ now)
          (sym ((same_key_iff j k).0 e)) (rw f (forced_is_called now call k s h)))
    | inr e ↦
        attempts_call now forced call keys k _ f (later j k keys e among)
          (other_stays-IsReady now (forced j) call j k s e h)
  ]

  -- If the throttle's time is over since a key's last call, and the key is one of a provider in the
  -- registry whose plugin supports its kind: after a request for the key, the next pass makes its own
  -- time the time of the key's last call, however many failures there were, even if the key is known
  -- to have no data.
  pub request_is_served :
      (now : ℕ) (supports : String → String → Bool) (providers : List String) (call : Key → Call P)
      (k : Key) (s : Refresher P G)
      → s.last_attempt k + G.throttle ≤ now
      → IsAmong k (visited P G supports providers)
      → (pass P G now supports providers call (request_refresh P G k s)).last_attempt k ≡ now
  unfolding pass request_refresh
  request_is_served now supports providers call k s ready among =
      attempts_call now _ call (visited P G supports providers) k _
        (asked s.refresh_all k s.pending) among (ready, gate_open now k s.next_attempt)
