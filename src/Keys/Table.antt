-- ===== src/Keys/Table.antt =====
-- What src/api/key_manager.py asks of the `api_keys` table of src/api/models.py. The database is not
-- part of the program, so it is a parameter; `none` is a session that raised, of which nothing is
-- committed. Amounts of money are millionths.
use simple_lcp.Prelude.{
  ℕ, String, ◌≡◌, ◌≢◌, Bool, true, false, Option, none, some, List, [], ◌∷◌, ◌++◌, nat_beq, All,
  if◌then◌else◌,
}

pub data KeyStatus : Type 0 where
  active revoked : KeyStatus

abbrev pub is_active : KeyStatus → Bool
is_active active = true
is_active revoked = false

pub record KeyRow : Type 0 where
  pub id : ℕ
  pub key_hash : String
  pub key_prefix : String
  pub name : String
  pub allowed_profiles : Option String
  pub spend_limit : ℕ
  pub total_spend : ℕ
  pub status : KeyStatus
  pub created_at : String
  pub last_used_at : Option String
  pub expires_at : Option String
  pub revoked_at : Option String
  pub metadata_tags : Option String

abbrev pub has_id : ℕ → KeyRow → Bool
has_id i r = nat_beq r.id i

-- the row of the same id replaced
unfoldable pub replace : KeyRow → List KeyRow → List KeyRow
replace r [] = []
replace r (x ∷ xs) = (if has_id r.id x then r else x) ∷ replace r xs

-- query.filter(p).first()
unfoldable pub first_where : (KeyRow → Bool) → List KeyRow → Option KeyRow
first_where p [] = none
first_where p (x ∷ xs) = if p x then some x else first_where p xs

pub record KeyTable : Type 1 where
  pub Db : Type 0
  -- query(ApiKey)
  pub rows : Db → List KeyRow
  -- session.add(ApiKey(…)), without an id; its id once committed
  pub add : KeyRow → Db → Option (ℕ × Db)
  -- attributes of a loaded row assigned
  pub write : KeyRow → Db → Option Db

-- An added row comes last, under an id that no row had; an assignment changes the rows of its id.
pub record Lawful (T : KeyTable) : Type 0 where
  pub add_appends :
      (r : KeyRow) (db : T.Db) {i : ℕ} {db' : T.Db}
      → T.add r db ≡ some (i, db')
      → (T.rows db' ≡ T.rows db ++ record r { id = i } ∷ []) × All (λ x. x.id ≢ i) (T.rows db)
  pub write_replaces :
      (r : KeyRow) (db : T.Db) {db' : T.Db}
      → T.write r db ≡ some db'
      → T.rows db' ≡ replace r (T.rows db)
