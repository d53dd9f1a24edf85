-- ===== src/Keys/Grants.antt =====
-- What a new and a rotated key of src/api/key_manager.py stand for.
use simple_lcp.Prelude.{
  ℕ, String, ◌≡◌, ◌≢◌, refl, sym, ap, ◌∙◌, subst, false, Option, some, List, [], ◌∷◌, ◌++◌,
  string_eq, arith, All, Bool-cases, Option-cases, inl, inr,
}
use simple_lcp.Keys.Table.{active, KeyRow, has_id, replace, first_where, KeyTable, Lawful}
use simple_lcp.Keys.Manager.{
  Grant, Clock, raw_key, info_of, new_row, renewed, revoke_row, use_row, is_expired, is_match,
  create_key, rotate_key, validate_key,
}
use simple_lcp.Keys.Dead.{IsDead, first_where-All, add-IsDead}
use simple_lcp.Keys.Revoked.{written-IsDead}

-- No row has the hash.
abbrev pub IsNew : String → List KeyRow → Type 0
IsNew hash rs = All (λ x. x.key_hash ≢ hash) rs

first_match_new :
    (hash : String) (r : KeyRow) (rs : List KeyRow)
    → IsNew hash rs
    → r.key_hash ≡ hash
    → r.status ≡ active
    → first_where (is_match hash) (rs ++ r ∷ []) ≡ some r
unfolding first_where
first_match_new hash r [] a h g = ground (arith, string_eq.beq_iff r.key_hash hash)
first_match_new hash r (x ∷ xs) a h g =
    ground (arith, a.0, string_eq.beq_iff x.key_hash hash, first_match_new hash r xs a.1 h g)

replace-IsNew :
    (hash : String) (r : KeyRow) (rs : List KeyRow)
    → r.key_hash ≢ hash
    → IsNew hash rs
    → IsNew hash (replace r rs)
unfolding replace
replace-IsNew hash r [] h a = tt
replace-IsNew hash r (x ∷ xs) h a = (
  elim (Bool-cases (has_id r.id x)) [ inl e ↦ rw e h | inr e ↦ rw e a.0 ],
  replace-IsNew hash r xs h a.1,
)

module _ (T : KeyTable) (law : Lawful T) (digest : String → String)
    (fromisoformat : String → Option ℕ) where
  -- Attributes can be assigned.
  abbrev pub Writes : Type 0
  Writes = (r : KeyRow) (db : T.Db) → (db' : T.Db) × (T.write r db ≡ some db')

  -- The text matches a row that has not expired, so it validates as the key of that row.
  matched_validates :
      (raw : String) (later : Clock) (db : T.Db) (k : KeyRow)
      → Writes
      → first_where (is_match (digest raw)) (T.rows db) ≡ some k
      → is_expired fromisoformat k later ≡ false
      → (db' : T.Db) × (validate_key T digest fromisoformat raw later db
          ≡ some (some (info_of k), db'))
  unfolding validate_key
  matched_validates raw later db k w h x =
      let (db', e) = w (use_row k later) db in (db', rw (h, x, e) refl)

  -- If attributes can be assigned and no row has the hash of the new secret, a created key validates, until it expires, as the id
  -- it was given, with the permissions that were asked for.
  pub created_key_validates :
      (g : Grant) (hex : String) (now later : Clock) (db : T.Db) {i : ℕ} {db' : T.Db}
      → Writes
      → IsNew (digest (raw_key hex)) (T.rows db)
      → create_key T digest fromisoformat g hex now db ≡ some (i, db')
      → is_expired fromisoformat (new_row digest g hex now) later ≡ false
      → let row = record (new_row digest g hex now) { id = i } in
        (db'' : T.Db) × (validate_key T digest fromisoformat (raw_key hex) later db'
          ≡ some (some (info_of row), db''))
  unfolding create_key new_row is_expired
  created_key_validates g hex now later db {i} {db'} w new c x =
      let row = record (new_row digest g hex now) { id = i } in
      matched_validates (raw_key hex) later db' row w
        (ap (first_where (is_match (digest (raw_key hex))))
            (law.add_appends (new_row digest g hex now) db c).0
          ∙ first_match_new (digest (raw_key hex)) row (T.rows db) new refl refl)
        x

  rotated_add :
      (i : ℕ) (hex : String) (now : Clock) (db : T.Db) {old : KeyRow} {mid : T.Db} {j : ℕ}
      {db' : T.Db}
      → first_where (has_id i) (T.rows db) ≡ some old
      → T.write (revoke_row old now) db ≡ some mid
      → rotate_key T digest fromisoformat i hex now db ≡ some (some j, db')
      → T.add (renewed digest old hex now) mid ≡ some (j, db')
  unfolding rotate_key
  rotated_add i hex now db {old = old} {mid = mid} e f c =
      elim (Option-cases (T.add (renewed digest old hex now) mid)) [
        | inl a ↦ absurd (ground arith)
        | inr ((n, db''), a) ↦ ground arith
      ]

  -- If attributes can be assigned and no row has the hash of the new secret, a rotation gives a new
  -- key with the name, profiles and limit of the old one, which validates until it expires; and
  -- every row of the old id is revoked.
  pub rotation_hands_over :
      (i : ℕ) (hex : String) (now later : Clock) (db : T.Db) {j : ℕ} {db' : T.Db}
      → Writes
      → IsNew (digest (raw_key hex)) (T.rows db)
      → rotate_key T digest fromisoformat i hex now db ≡ some (some j, db')
      → (old : KeyRow) × (first_where (has_id i) (T.rows db) ≡ some old)
        × IsDead i (T.rows db')
        × (is_expired fromisoformat old later ≡ false
            → (db'' : T.Db) × (validate_key T digest fromisoformat (raw_key hex) later db'
                ≡ some (some (record (info_of old) { id = j; total_spend = 0 }), db'')))
  unfolding rotate_key renewed is_expired
  rotation_hands_over i hex now later db {j} {db'} w new c =
      elim (Option-cases (first_where (has_id i) (T.rows db))) [
        | inl e ↦ absurd (ground arith)
        | inr (old, e) ↦
            let (mid, f) = w (revoke_row old now) db in
            let added : T.add (renewed digest old hex now) mid ≡ some (j, db') =
              rotated_add i hex now db e f c in
            let (rows, fresh) = law.add_appends (renewed digest old hex now) mid added in
            let row = record (renewed digest old hex now) { id = j } in
            let other : old.key_hash ≢ digest (raw_key hex) =
              first_where-All (λ x. x.key_hash ≢ digest (raw_key hex)) (has_id i) (T.rows db) e
                new in
            let still : IsNew (digest (raw_key hex)) (T.rows mid) =
              subst (IsNew (digest (raw_key hex)))
                (sym (law.write_replaces (revoke_row old now) db f))
                (replace-IsNew (digest (raw_key hex)) (revoke_row old now) (T.rows db) other new) in
            (
              old,
              e,
              add-IsDead T law i j (renewed digest old hex now) mid added
                  (written-IsDead T law i now old db e f),
              λ x.
                  matched_validates (raw_key hex) later db' row w
                    (ap (first_where (is_match (digest (raw_key hex)))) rows
                      ∙ first_match_new (digest (raw_key hex)) row (T.rows mid) still refl refl)
                    x,
            )
      ]
