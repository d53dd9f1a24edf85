-- ===== src/Keys/Dead.antt =====
-- A revoked key of src/api/key_manager.py stays revoked.
use simple_lcp.Prelude.{
  ℕ, String, ◌≡◌, ◌≢◌, refl, ◌∙◌, subst, Bool, true, Option, some, List, [], ◌∷◌, ◌++◌, arith, any,
  All, Bool-cases, Option-cases, inl, inr, string_eq,
}
use simple_lcp.Keys.Table.{revoked, KeyRow, has_id, replace, first_where, KeyTable, Lawful}
use simple_lcp.Keys.Manager.{
  Grant, Clock, new_row, renewed, revoke_row, use_row, is_expired, is_match, create_key, rotate_key,
  revoke_key, validate_key, Call, create, rotate, revoke, validate, step, run,
}

pub first_where-holds :
    (p : KeyRow → Bool) (rs : List KeyRow) {k : KeyRow} → first_where p rs ≡ some k → p k ≡ true
unfolding first_where
first_where-holds p [] h = cc
first_where-holds p (x ∷ xs) {k} h = elim (Bool-cases (p x)) [
  | inl e ↦ subst (λ r. p r ≡ true) (ground arith) e
  | inr e ↦ first_where-holds p xs (ground arith)
]

pub first_where-All {ℓ} :
    (P : KeyRow → Type ℓ) (p : KeyRow → Bool) (rs : List KeyRow) {k : KeyRow}
    → first_where p rs ≡ some k
    → All P rs
    → P k
unfolding first_where
first_where-All P p [] h a = cc
first_where-All P p (x ∷ xs) h a = elim (Bool-cases (p x)) [
  | inl e ↦ subst P (ground arith) a.0
  | inr e ↦ first_where-All P p xs (ground arith) a.1
]

-- A row with the id is there, and every such row is revoked.
abbrev pub IsDead : ℕ → List KeyRow → Type 0
IsDead i rs = (any (has_id i) rs ≡ true) × All (λ x. x.id ≡ i → x.status ≡ revoked) rs

pub any-replace :
    (i : ℕ) (r : KeyRow) (rs : List KeyRow) → any (has_id i) (replace r rs) ≡ any (has_id i) rs
unfolding any replace
any-replace i r [] = refl
any-replace i r (x ∷ xs) = ground (arith, any-replace i r xs)

replace-All :
    (i : ℕ) (r : KeyRow) (rs : List KeyRow)
    → (r.id ≡ i → r.status ≡ revoked)
    → All (λ x. x.id ≡ i → x.status ≡ revoked) rs
    → All (λ x. x.id ≡ i → x.status ≡ revoked) (replace r rs)
unfolding replace
replace-All i r [] h a = tt
replace-All i r (x ∷ xs) h a = (
  elim (Bool-cases (has_id r.id x)) [ inl e ↦ rw e h | inr e ↦ rw e a.0 ],
  replace-All i r xs h a.1,
)

replace-IsDead :
    (i : ℕ) (r : KeyRow) (rs : List KeyRow)
    → (r.id ≡ i → r.status ≡ revoked)
    → IsDead i rs
    → IsDead i (replace r rs)
replace-IsDead i r rs h d = (any-replace i r rs ∙ d.0, replace-All i r rs h d.1)

any-append :
    (i : ℕ) (r : KeyRow) (rs : List KeyRow)
    → any (has_id i) rs ≡ true
    → any (has_id i) (rs ++ r ∷ []) ≡ true
unfolding any
any-append i r [] h = cc
any-append i r (x ∷ xs) h = ground (arith, any-append i r xs)

append-All :
    (i : ℕ) (r : KeyRow) (rs : List KeyRow)
    → r.id ≢ i
    → All (λ x. x.id ≡ i → x.status ≡ revoked) rs
    → All (λ x. x.id ≡ i → x.status ≡ revoked) (rs ++ r ∷ [])
append-All i r [] h a = (λ e. absurd (h e), tt)
append-All i r (x ∷ xs) h a = (a.0, append-All i r xs h a.1)

append-IsDead :
    (i : ℕ) (r : KeyRow) (rs : List KeyRow) → r.id ≢ i → IsDead i rs → IsDead i (rs ++ r ∷ [])
append-IsDead i r rs h d = (any-append i r rs d.0, append-All i r rs h d.1)

fresh_differs :
    (i j : ℕ) (rs : List KeyRow) → any (has_id i) rs ≡ true → All (λ x. x.id ≢ j) rs → j ≢ i
unfolding any
fresh_differs i j [] h a = cc
fresh_differs i j (x ∷ xs) h a = λ e. elim (Bool-cases (has_id i x)) [
  | inl c ↦ a.0 (ground arith)
  | inr c ↦ fresh_differs i j xs (ground arith) a.1 e
]

module _ (T : KeyTable) (law : Lawful T) where
  pub add-IsDead :
      (i j : ℕ) (r : KeyRow) (db : T.Db) {db' : T.Db}
      → T.add r db ≡ some (j, db')
      → IsDead i (T.rows db)
      → IsDead i (T.rows db')
  add-IsDead i j r db h d =
      let (e, fresh) = law.add_appends r db h in
      rw e (
        append-IsDead i (record r { id = j }) (T.rows db) (fresh_differs i j (T.rows db) d.0 fresh)
          d)

  write-IsDead :
      (i : ℕ) (r : KeyRow) (db : T.Db) {db' : T.Db}
      → T.write r db ≡ some db'
      → (r.id ≡ i → r.status ≡ revoked)
      → IsDead i (T.rows db)
      → IsDead i (T.rows db')
  write-IsDead i r db h g d = rw (law.write_replaces r db h) (replace-IsDead i r (T.rows db) g d)

  module _ (digest : String → String) (fromisoformat : String → Option ℕ) where
    -- A row that a key matches is active, so it is not a dead one.
    pub matched-id :
        (i : ℕ) (hash : String) (rs : List KeyRow) {k : KeyRow}
        → first_where (is_match hash) rs ≡ some k
        → IsDead i rs
        → k.id ≢ i
    matched-id i hash rs {k} h d = λ e.
        let dead =
          first_where-All (λ x. x.id ≡ i → x.status ≡ revoked) (is_match hash) rs h d.1 e in
        ground (arith, dead, first_where-holds (is_match hash) rs h)

    create-IsDead :
        (i : ℕ) (g : Grant) (hex : String) (now : Clock) (db : T.Db)
        → IsDead i (T.rows db)
        → IsDead i (T.rows (step T digest fromisoformat db (create g hex now)))
    unfolding step create_key
    create-IsDead i g hex now db d = elim (Option-cases (T.add (new_row digest g hex now) db)) [
      | inl e ↦ rw e d
      | inr ((j, db'), e) ↦ rw e (add-IsDead i j (new_row digest g hex now) db e d)
    ]

    revoke-IsDead :
        (i j : ℕ) (now : Clock) (db : T.Db)
        → IsDead i (T.rows db)
        → IsDead i (T.rows (step T digest fromisoformat db (revoke j now)))
    unfolding step revoke_key
    revoke-IsDead i j now db d = elim (Option-cases (first_where (has_id j) (T.rows db))) [
      | inl e ↦ rw e d
      | inr (k, e) ↦ elim (Option-cases (T.write (revoke_row k now) db)) [
        | inl f ↦ rw (e, f) d
        | inr (db', f) ↦ rw (e, f) (write-IsDead i (revoke_row k now) db f (λ g. refl) d)
      ]
    ]

    validate-IsDead :
        (i : ℕ) (raw : String) (now : Clock) (db : T.Db)
        → IsDead i (T.rows db)
        → IsDead i (T.rows (step T digest fromisoformat db (validate raw now)))
    unfolding step validate_key
    validate-IsDead i raw now db d =
        elim (Option-cases (first_where (is_match (digest raw)) (T.rows db))) [
          | inl e ↦ rw e d
          | inr (k, e) ↦ elim (Bool-cases (is_expired fromisoformat k now)) [
            | inl x ↦ rw (e, x) d
            | inr x ↦ elim (Option-cases (T.write (use_row k now) db)) [
              | inl f ↦ rw (e, x, f) d
              | inr (db', f) ↦
                  rw (e, x, f)
                    (write-IsDead i (use_row k now) db f
                      (λ g. absurd (matched-id i (digest raw) (T.rows db) e d g)) d)
            ]
          ]
        ]

    rotate-IsDead :
        (i j : ℕ) (hex : String) (now : Clock) (db : T.Db)
        → IsDead i (T.rows db)
        → IsDead i (T.rows (step T digest fromisoformat db (rotate j hex now)))
    unfolding step rotate_key
    rotate-IsDead i j hex now db d = elim (Option-cases (first_where (has_id j) (T.rows db))) [
      | inl e ↦ rw e d
      | inr (k, e) ↦ elim (Option-cases (T.write (revoke_row k now) db)) [
        | inl f ↦ rw (e, f) d
        | inr (db', f) ↦
            let d' = write-IsDead i (revoke_row k now) db f (λ g. refl) d in
            elim (Option-cases (T.add (renewed digest k hex now) db')) [
              | inl a ↦ rw (e, f, a) d
              | inr ((n, db''), a) ↦
                  rw (e, f, a) (add-IsDead i n (renewed digest k hex now) db' a d')
            ]
      ]
    ]

    step-IsDead :
        (i : ℕ) (c : Call T digest fromisoformat) (db : T.Db)
        → IsDead i (T.rows db)
        → IsDead i (T.rows (step T digest fromisoformat db c))
    step-IsDead i (create g hex now) db d = create-IsDead i g hex now db d
    step-IsDead i (rotate j hex now) db d = rotate-IsDead i j hex now db d
    step-IsDead i (revoke j now) db d = revoke-IsDead i j now db d
    step-IsDead i (validate raw now) db d = validate-IsDead i raw now db d

    pub run-IsDead :
        (i : ℕ) (cs : List (Call T digest fromisoformat)) (db : T.Db)
        → IsDead i (T.rows db)
        → IsDead i (T.rows (run T digest fromisoformat db cs))
    unfolding run
    run-IsDead i [] db d = d
    run-IsDead i (c ∷ cs) db d =
        run-IsDead i cs (step T digest fromisoformat db c) (step-IsDead i c db d)
