-- ===== src/Cache/Bounds.antt =====
-- The cache of src/api/prompt_cache.py holds no more than it may, and gives back what was stored.
use mathlib.Core.Option.{some-injective}
use simple_lcp.Prelude.{
  ℕ, suc, ◌+◌, ◌≤◌, ◌<◌, String, ◌≡◌, refl, sym, subst, ◌⊎◌, ◌∙◌, Bool, true, false, none, some,
  List, [], ◌∷◌, ◌==◌, string_eq, arith, ltb, leb, length, any, insert, remove, lookup-insert,
  Bool-cases, Option-cases, inl, inr, if◌then◌else◌,
}
use simple_lcp.Cache.Store.{
  Entry, Cache, Call, gets, sets, oldest_from, oldest_key, get, put, set, step, run, kept,
}

leb-false : (a b : ℕ) → leb a b ≡ false → b < a
leb-false a b h = ground arith

module _ {R : Type 0} where
  abbrev is_key : String → String × Entry R → Bool
  is_key k e = e.0 == k

  length-insert :
      (k : String) (v : Entry R) (m : List (String × Entry R))
      → length (insert k v m) ≤ suc (length m)
  unfolding insert
  length-insert k v [] = omega arith
  length-insert k v (e ∷ m) = ground (arith, length-insert k v m)

  length-remove_le : (k : String) (m : List (String × Entry R)) → length (remove k m) ≤ length m
  unfolding remove
  length-remove_le k [] = omega arith
  length-remove_le k ((j, e) ∷ m) = ground (arith, length-remove_le k m)

  length-remove :
      (k : String) (m : List (String × Entry R))
      → any (is_key k) m ≡ true
      → length (remove k m) < length m
  unfolding remove any
  length-remove k [] h = cc
  length-remove k ((j, e) ∷ m) h = ground (arith, length-remove k m, length-remove_le k m)

  any-cons :
      (o k : String) (e : Entry R) (m : List (String × Entry R))
      → (o ≡ k) ⊎ (any (is_key o) m ≡ true)
      → any (is_key o) ((k, e) ∷ m) ≡ true
  unfolding any
  any-cons o k e m h = ground (arith, string_eq.beq_iff k o)

  -- The key found is the first one or a later one.
  oldest_from-cases :
      (best : String × ℕ) (m : List (String × Entry R))
      → (oldest_from best m ≡ best.0) ⊎ (any (is_key (oldest_from best m)) m ≡ true)
  unfolding oldest_from
  oldest_from-cases best [] = inl refl
  oldest_from-cases best ((k, e) ∷ m) = elim (Bool-cases (ltb e.expires best.1)) [
    | inl c ↦
        rw c
          (inr (any-cons (oldest_from (k, e.expires) m) k e m (oldest_from-cases (k, e.expires) m)))
    | inr c ↦ rw c (elim (oldest_from-cases best m) [
      | inl x ↦ inl x
      | inr y ↦ inr (any-cons (oldest_from best m) k e m (inr y))
    ])
  ]

  any-oldest_key :
      (m : List (String × Entry R)) {k : String} → oldest_key m ≡ some k → any (is_key k) m ≡ true
  unfolding oldest_key
  any-oldest_key [] h = cc
  any-oldest_key ((j, e) ∷ m) h =
      subst (λ k. any (is_key k) ((j, e) ∷ m) ≡ true) (some-injective _ _ h)
        (any-cons (oldest_from (j, e.expires) m) j e m (oldest_from-cases (j, e.expires) m))

  empty-oldest_key : (m : List (String × Entry R)) → oldest_key m ≡ none → 1 ≤ length m → ⊥
  unfolding oldest_key
  empty-oldest_key [] h l = omega arith
  empty-oldest_key (e ∷ m) h l = cc

  -- A cache with room for an entry stores without an error, in a cache that has made room.
  set-put :
      (c : Cache R) (k : String) (r : R) (now : ℕ)
      → 1 ≤ c.max_entries
      → length c.entries ≤ c.max_entries
      → (room : Cache R) × (set c k r now ≡ some (put room k r now))
        × (length room.entries < c.max_entries)
        × (room.max_entries ≡ c.max_entries)
        × (room.ttl ≡ c.ttl)
  unfolding set
  set-put c k r now h b = elim (Bool-cases (leb c.max_entries (length c.entries))) [
    | inl full ↦ elim (Option-cases (oldest_key c.entries)) [
      | inl e ↦ absurd (empty-oldest_key c.entries e (ground arith))
      | inr (old, e) ↦
          let room : Cache R = record c { entries = remove old c.entries } in
          let fewer = length-remove old c.entries (any-oldest_key c.entries e) in
          (room, rw (full, e) refl, omega arith, refl, refl)
    ]
    | inr free ↦ (c, rw free refl, leb-false c.max_entries (length c.entries) free, refl, refl)
  ]

  put-bounded :
      (c : Cache R) (k : String) (r : R) (now : ℕ)
      → length (put c k r now).entries ≤ suc (length c.entries)
  unfolding put
  put-bounded c k r now = length-insert k (record { expires = now + c.ttl; response = r }) c.entries

  max_entries-put :
      (c : Cache R) (k : String) (r : R) (now : ℕ) → (put c k r now).max_entries ≡ c.max_entries
  unfolding put
  max_entries-put c k r now = refl

  get-keeps :
      (c : Cache R) (k : String) (now : ℕ)
      → (length (get c k now).1.entries ≤ length c.entries)
        × ((get c k now).1.max_entries ≡ c.max_entries)
  unfolding get
  get-keeps c k now = ground (arith, length-remove_le k c.entries)

  step-bounded :
      (c : Cache R) (call : Call R)
      → 1 ≤ c.max_entries
      → length c.entries ≤ c.max_entries
      → (length (step c call).entries ≤ c.max_entries) × ((step c call).max_entries ≡ c.max_entries)
  unfolding step
  step-bounded c (gets k now) h b = let (fewer, same) = get-keeps c k now in (omega arith, same)
  step-bounded c (sets k r now) h b =
      let (room, e, less, same, ttl) = set-put c k r now h b in
      let more = put-bounded room k r now in
      subst
        (λ o.
          (length (kept c o).entries ≤ c.max_entries) × ((kept c o).max_entries ≡ c.max_entries))
        (sym e) (omega arith, max_entries-put room k r now ∙ same)

  -- However it is used, a cache with room for an entry that holds no more than it may never does.
  pub run_bounded :
      (c : Cache R) (calls : List (Call R))
      → 1 ≤ c.max_entries
      → length c.entries ≤ c.max_entries
      → length (run c calls).entries ≤ c.max_entries
  unfolding run
  run_bounded c [] h b = b
  run_bounded c (call ∷ calls) h b =
      let (bound, same) = step-bounded c call h b in
      let rest = run_bounded (step c call) calls (omega arith) (omega arith) in omega arith

  get-put :
      (c : Cache R) (k : String) (r : R) (now later : ℕ)
      → (get (put c k r now) k later).0 ≡ (if ltb (now + c.ttl) later then none else some r)
  unfolding get put
  get-put c k r now later = ground (
    arith,
    string_eq.beq_iff k k,
    lookup-insert k k (record { expires = now + c.ttl; response = r }) c.entries,
  )

  -- A cache with room for an entry, which holds no more than it may, stores without an error, and
  -- then gives the response back while its time to live has not passed, and not after it.
  pub set_then_get :
      (c : Cache R) (k : String) (r : R) (now later : ℕ)
      → 1 ≤ c.max_entries
      → length c.entries ≤ c.max_entries
      → (c' : Cache R) × (set c k r now ≡ some c')
        × ((get c' k later).0 ≡ (if ltb (now + c.ttl) later then none else some r))
  set_then_get c k r now later h b =
      let (room, e, less, same, ttl) = set-put c k r now h b in
      (
        put room k r now,
        e,
        subst
            (λ t.
              (get (put room k r now) k later).0 ≡ (if ltb (now + t) later then none else some r))
            ttl (get-put room k r now later),
      )
