-- ===== src/Keys/Manager.antt =====
-- The operations of `KeyManager` (src/api/key_manager.py). The hash, the random part of a new key,
-- the clock and the date parser are parameters; `none` is a session that raised.
use Prim.Native.String.{◌++◌ as join_text}
use simple_lcp.Prelude.{
  ℕ, String, Bool, true, false, ◌&&◌, Option, none, some, List, [], ◌∷◌, ◌==◌, string_eq, ltb,
  if◌then◌else◌,
}
use simple_lcp.Pipeline.Errors.{take_chars}
use simple_lcp.Keys.Table.{active, revoked, is_active, KeyRow, has_id, first_where, KeyTable}

-- The arguments of `create_key`.
pub record Grant : Type 0 where
  pub name : String
  pub allowed_profiles : String
  pub spend_limit : ℕ
  pub expires_at : String
  pub metadata_tags : String

-- What a valid key stands for.
pub record KeyInfo : Type 0 where
  pub id : ℕ
  pub name : String
  pub allowed_profiles : Option String
  pub spend_limit : ℕ
  pub total_spend : ℕ

-- datetime.now(timezone.utc), as an instant and as the text that is stored
pub record Clock : Type 0 where
  pub instant : ℕ
  pub iso : String

-- s or None
abbrev pub or_none : String → Option String
or_none s = if s == "" then none else some s

-- "lcp_" + secrets.token_hex(24)
abbrev pub raw_key : String → String
raw_key hex = join_text "lcp_" hex

abbrev pub info_of : KeyRow → KeyInfo
info_of k = record {
  id = k.id;
  name = k.name;
  allowed_profiles = k.allowed_profiles;
  spend_limit = k.spend_limit;
  total_spend = k.total_spend;
}

unfoldable pub new_row : (String → String) → Grant → String → Clock → KeyRow
new_row digest g hex now =
    let prefix = take_chars 12 (raw_key hex) in
    record {
      id = 0;
      key_hash = digest (raw_key hex);
      key_prefix = prefix;
      name = if g.name == "" then join_text "Key " prefix else g.name;
      allowed_profiles = or_none g.allowed_profiles;
      spend_limit = g.spend_limit;
      total_spend = 0;
      status = active;
      created_at = now.iso;
      last_used_at = none;
      expires_at = or_none g.expires_at;
      revoked_at = none;
      metadata_tags = or_none g.metadata_tags;
    }

-- the same permissions under a new secret
unfoldable pub renewed : (String → String) → KeyRow → String → Clock → KeyRow
renewed digest old hex now = record {
  id = 0;
  key_hash = digest (raw_key hex);
  key_prefix = take_chars 12 (raw_key hex);
  name = old.name;
  allowed_profiles = old.allowed_profiles;
  spend_limit = old.spend_limit;
  total_spend = 0;
  status = active;
  created_at = now.iso;
  last_used_at = none;
  expires_at = old.expires_at;
  revoked_at = none;
  metadata_tags = old.metadata_tags;
}

abbrev pub revoke_row : KeyRow → Clock → KeyRow
revoke_row k now = record k { status = revoked; revoked_at = some now.iso }

abbrev pub use_row : KeyRow → Clock → KeyRow
use_row k now = record k { last_used_at = some now.iso }

-- now > exp, if `expires_at` is set and is a date
unfoldable pub is_expired : (String → Option ℕ) → KeyRow → Clock → Bool
is_expired fromisoformat k now = elim k.expires_at [
  | none ↦ false
  | some s ↦
      if s == ""
      then false
      else elim (fromisoformat s) [ none ↦ false | some exp ↦ ltb exp now.instant ]
]

-- ApiKey.key_hash == key_hash, ApiKey.status == "active"
abbrev pub is_match : String → KeyRow → Bool
is_match hash k = k.key_hash == hash && is_active k.status

module _ (T : KeyTable) (digest : String → String) (fromisoformat : String → Option ℕ) where
  -- the id of the new key
  unfoldable pub create_key : Grant → String → Clock → T.Db → Option (ℕ × T.Db)
  create_key g hex now db = T.add (new_row digest g hex now) db

  abbrev named {ℓ} : {D : Type ℓ} → Option (ℕ × D) → Option (Option ℕ × D)
  named none = none
  named (some (i, db)) = some (some i, db)

  added_after : KeyRow → Option T.Db → Option (Option ℕ × T.Db)
  added_after r none = none
  added_after r (some db) = named (T.add r db)

  rotate_found : String → Clock → T.Db → Option KeyRow → Option (Option ℕ × T.Db)
  unfolding added_after
  rotate_found hex now db none = some (none, db)
  rotate_found hex now db (some old) =
      added_after (renewed digest old hex now) (T.write (revoke_row old now) db)

  -- the id of the new key; `some none` if there is no such key
  unfoldable pub rotate_key : ℕ → String → Clock → T.Db → Option (Option ℕ × T.Db)
  unfolding rotate_found
  rotate_key i hex now db = rotate_found hex now db (first_where (has_id i) (T.rows db))

  abbrev written {ℓ} : {R : Type ℓ} → R → Option T.Db → Option (R × T.Db)
  written r none = none
  written r (some db) = some (r, db)

  revoke_found : Clock → T.Db → Option KeyRow → Option (Bool × T.Db)
  revoke_found now db none = some (false, db)
  revoke_found now db (some k) = written true (T.write (revoke_row k now) db)

  unfoldable pub revoke_key : ℕ → Clock → T.Db → Option (Bool × T.Db)
  unfolding revoke_found
  revoke_key i now db = revoke_found now db (first_where (has_id i) (T.rows db))

  validate_found : Clock → T.Db → Option KeyRow → Option (Option KeyInfo × T.Db)
  validate_found now db none = some (none, db)
  validate_found now db (some k) =
      if is_expired fromisoformat k now
      then some (none, db)
      else written (some (info_of k)) (T.write (use_row k now) db)

  unfoldable pub validate_key : String → Clock → T.Db → Option (Option KeyInfo × T.Db)
  unfolding validate_found
  validate_key raw now db = validate_found now db (first_where (is_match (digest raw)) (T.rows db))

  pub data Call : Type 0 where
    create : Grant → String → Clock → Call
    rotate : ℕ → String → Clock → Call
    revoke : ℕ → Clock → Call
    validate : String → Clock → Call

  abbrev kept {ℓ} : {R : Type ℓ} → T.Db → Option (R × T.Db) → T.Db
  kept db none = db
  kept db (some (r, db')) = db'

  -- one call of the manager; a session that raised leaves the table as it was
  unfoldable pub step : T.Db → Call → T.Db
  step db (create g hex now) = kept db (create_key g hex now db)
  step db (rotate i hex now) = kept db (rotate_key i hex now db)
  step db (revoke i now) = kept db (revoke_key i now db)
  step db (validate raw now) = kept db (validate_key raw now db)

  unfoldable pub run : T.Db → List Call → T.Db
  run db [] = db
  run db (c ∷ cs) = run (step db c) cs
