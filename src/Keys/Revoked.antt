-- ===== src/Keys/Revoked.antt =====
-- `revoke_key` of src/api/key_manager.py: what it makes of the table, and that nothing undoes it.
use simple_lcp.Prelude.{
  ℕ, String, ◌≡◌, ◌≢◌, refl, ◌∙◌, Bool, true, Option, some, List, [], ◌∷◌, arith, any, All,
  Bool-cases, Option-cases, inl, inr,
}
use simple_lcp.Keys.Table.{revoked, KeyRow, has_id, replace, first_where, KeyTable, Lawful}
use simple_lcp.Keys.Manager.{
  KeyInfo, Clock, revoke_row, is_match, revoke_key, validate_key, Call, run,
}
use simple_lcp.Keys.Dead.{IsDead, first_where-holds, any-replace, matched-id, run-IsDead}

any-first_where :
    (p : KeyRow → Bool) (rs : List KeyRow) {k : KeyRow}
    → first_where p rs ≡ some k
    → any p rs ≡ true
unfolding any first_where
any-first_where p [] h = cc
any-first_where p (x ∷ xs) {k} h = elim (Bool-cases (p x)) [
  | inl e ↦ rw e
  | inr e ↦ rw (e, any-first_where p xs {k = k} (ground arith))
]

replace_revoked :
    (i : ℕ) (r : KeyRow) (rs : List KeyRow)
    → r.id ≡ i
    → r.status ≡ revoked
    → All (λ x. x.id ≡ i → x.status ≡ revoked) (replace r rs)
unfolding replace
replace_revoked i r [] h g = tt
replace_revoked i r (x ∷ xs) h g = (
  elim (Bool-cases (has_id r.id x)) [ inl e ↦ rw e (λ j. g) | inr e ↦ rw e (λ j. ground arith) ],
  replace_revoked i r xs h g,
)

module _ (T : KeyTable) (law : Lawful T) where
  -- A found row is dead once its revocation is written.
  pub written-IsDead :
      (i : ℕ) (now : Clock) (k : KeyRow) (db : T.Db) {db' : T.Db}
      → first_where (has_id i) (T.rows db) ≡ some k
      → T.write (revoke_row k now) db ≡ some db'
      → IsDead i (T.rows db')
  written-IsDead i now k db h w =
      let same : k.id ≡ i = ground (arith, first_where-holds (has_id i) (T.rows db) h) in
      rw (law.write_replaces (revoke_row k now) db w) (
        any-replace i (revoke_row k now) (T.rows db) ∙ any-first_where (has_id i) (T.rows db) h,
        replace_revoked i (revoke_row k now) (T.rows db) same refl,
      )

  module _ (digest : String → String) (fromisoformat : String → Option ℕ) where
    revoke_key-IsDead :
        (i : ℕ) (now : Clock) (db : T.Db) {db' : T.Db}
        → revoke_key T digest fromisoformat i now db ≡ some (true, db')
        → IsDead i (T.rows db')
    unfolding revoke_key
    revoke_key-IsDead i now db {db'} h = elim (Option-cases (first_where (has_id i) (T.rows db))) [
      | inl e ↦ absurd (ground arith)
      | inr (k, e) ↦ written-IsDead i now k db e (ground arith)
    ]

    dead_never_validates :
        (i : ℕ) (raw : String) (now : Clock) (db : T.Db) {info : KeyInfo} {db' : T.Db}
        → IsDead i (T.rows db)
        → validate_key T digest fromisoformat raw now db ≡ some (some info, db')
        → info.id ≢ i
    unfolding validate_key
    dead_never_validates i raw now db d h =
        elim (Option-cases (first_where (is_match (digest raw)) (T.rows db))) [
          | inl e ↦ absurd (ground arith)
          | inr (k, e) ↦ λ g.
              matched-id T law digest fromisoformat i (digest raw) (T.rows db) e d (ground arith)
        ]

    -- Over a table that keeps its rows: once a key has been revoked, no text validates as that key, whatever calls come in between.
    pub revoked_for_good :
        (i : ℕ) (now : Clock) (db : T.Db) {db' : T.Db}
        → revoke_key T digest fromisoformat i now db ≡ some (true, db')
        → (calls : List (Call T digest fromisoformat))
        → (raw : String) (later : Clock) {info : KeyInfo} {db'' : T.Db}
        → validate_key T digest fromisoformat raw later (run T digest fromisoformat db' calls)
          ≡ some (some info, db'')
        → info.id ≢ i
    revoked_for_good i now db {db'} h calls raw later v =
        dead_never_validates i raw later (run T digest fromisoformat db' calls)
          (run-IsDead T law digest fromisoformat i calls db' (revoke_key-IsDead i now db h)) v
