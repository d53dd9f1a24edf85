-- ===== src/Keys/Examples.antt =====
-- Runs of the key manager (src/api/key_manager.py) over a table kept as a list. The hash is the
-- text itself, and a date is a text that never parses.
use mathlib.Core.Option.{some-injective}
use simple_lcp.Prelude.{
  ℕ, suc, ◌≤◌, String, ◌≡◌, ◌≢◌, refl, sym, subst, true, false, Option, none, some, List, [], ◌∷◌,
  ◌++◌, arith, max, All, string_eq,
}
use simple_lcp.Keys.Dead.{IsDead}
use simple_lcp.Keys.Table.{active, revoked, KeyRow, has_id, replace, first_where, KeyTable, Lawful}
use simple_lcp.Keys.Manager.{
  Grant, Clock, raw_key, info_of, new_row, renewed, is_expired, create_key, rotate_key, revoke_key,
  validate_key, Call, rotate, validate, step, run,
}
use simple_lcp.Pipeline.Errors.{take_chars}
use simple_lcp.Keys.Revoked.{revoked_for_good}
use simple_lcp.Keys.Grants.{IsNew, Writes, created_key_validates, rotation_hands_over}

next_id : List KeyRow → ℕ
next_id [] = 1
next_id (x ∷ xs) = max (suc x.id) (next_id xs)

below_next : (n : ℕ) (rs : List KeyRow) → next_id rs ≤ n → All (λ x. x.id ≢ n) rs
unfolding next_id
below_next n [] h = tt
below_next n (x ∷ xs) h = (λ e. absurd (omega arith), below_next n xs (omega arith))

abbrev list_keys : KeyTable
list_keys = record {
  Db = List KeyRow;
  rows = λ rs. rs;
  add = λ r rs. some (next_id rs, rs ++ record r { id = next_id rs } ∷ []);
  write = λ r rs. some (replace r rs);
}

list_keys-Lawful : Lawful list_keys
list_keys-Lawful = record {
  add_appends = λ r rs h.
      subst
        (λ (x : ℕ × List KeyRow).
          (x.1 ≡ rs ++ record r { id = x.0 } ∷ []) × All (λ y. y.id ≢ x.0) rs)
        (some-injective _ _ h) (refl, below_next (next_id rs) rs (omega arith));
  write_replaces = λ r rs h. sym (some-injective _ _ h);
}

abbrev digest : String → String
digest s = s

abbrev no_dates : String → Option ℕ
no_dates s = none

abbrev at : ℕ → Clock
at t = record { instant = t; iso = "2026-01-01" }

abbrev alice : KeyRow
alice = record {
  id = 1;
  key_hash = "lcp_aa";
  key_prefix = "lcp_aa";
  name = "alice";
  allowed_profiles = some "l2";
  spend_limit = 5;
  total_spend = 2;
  status = active;
  created_at = "2026-01-01";
  last_used_at = none;
  expires_at = none;
  revoked_at = none;
  metadata_tags = none;
}

abbrev bob : KeyRow
bob = record alice { id = 2; key_hash = "lcp_bb"; name = "bob" }

abbrev table : List KeyRow
table = alice ∷ bob ∷ []

abbrev without_alice : List KeyRow
without_alice = record alice { status = revoked; revoked_at = some "2026-01-01" } ∷ bob ∷ []

alice_revoked : revoke_key list_keys digest no_dates 1 (at 0) table ≡ some (true, without_alice)
unfolding revoke_key first_where replace
alice_revoked = refl

abbrev later_calls : List (Call list_keys digest no_dates)
later_calls = validate "lcp_bb" (at 1) ∷ rotate 2 "cc" (at 2) ∷ []

abbrev bob_again : KeyRow
bob_again = record bob {
  id = 3;
  key_hash = "lcp_cc";
  key_prefix = "lcp_cc";
  total_spend = 0;
  last_used_at = some "2026-01-01";
}

abbrev in_the_end : List KeyRow
in_the_end =
    record alice { status = revoked; revoked_at = some "2026-01-01" }
    ∷ record bob {
      status = revoked;
      revoked_at = some "2026-01-01";
      last_used_at = some "2026-01-01";
    }
    ∷ bob_again
    ∷ []

bob_validates :
    validate_key list_keys digest no_dates "lcp_cc"
      (at 3)
      (run list_keys digest no_dates without_alice later_calls)
    ≡ some (some (info_of bob_again), in_the_end)
unfolding validate_key run step rotate_key renewed first_where replace is_expired next_id take_chars
bob_validates = refl

revoked_for_good_example : ◌≢◌ {A = ℕ} 3 1
revoked_for_good_example =
    revoked_for_good list_keys list_keys-Lawful digest no_dates 1 (at 0) table alice_revoked
      later_calls "lcp_cc" (at 3) bob_validates

list_keys-Writes : Writes list_keys list_keys-Lawful digest no_dates
list_keys-Writes = λ r rs. (replace r rs, refl)

abbrev carol : Grant
carol = record {
  name = "carol";
  allowed_profiles = "l2,l3";
  spend_limit = 7;
  expires_at = "";
  metadata_tags = "";
}

cc-IsNew : IsNew "lcp_cc" table
cc-IsNew = (
  λ e. ground (arith, string_eq.beq_iff "lcp_aa" "lcp_cc"),
  (λ e. ground (arith, string_eq.beq_iff "lcp_bb" "lcp_cc"), tt),
)

abbrev carol_row : KeyRow
carol_row = record (new_row digest carol "cc" (at 0)) { id = 3 }

carol_created :
    create_key list_keys digest no_dates carol "cc" (at 0) table ≡ some (3, table ++ carol_row ∷ [])
unfolding create_key next_id new_row
carol_created = refl

carol_is_fresh : is_expired no_dates (new_row digest carol "cc" (at 0)) (at 5) ≡ false
unfolding is_expired new_row
carol_is_fresh = refl

created_key_validates_example :
    (db'' : List KeyRow) × (validate_key list_keys digest no_dates
        (raw_key "cc")
        (at 5)
        (table ++ carol_row ∷ [])
      ≡ some (some (info_of carol_row), db''))
created_key_validates_example =
    created_key_validates list_keys list_keys-Lawful digest no_dates carol "cc" (at 0) (at 5) table
      list_keys-Writes cc-IsNew carol_created carol_is_fresh

abbrev rotated : List KeyRow
rotated =
    alice
    ∷ record bob { status = revoked; revoked_at = some "2026-01-01" }
    ∷ record bob_again { last_used_at = none }
    ∷ []

bob_rotated : rotate_key list_keys digest no_dates 2 "cc" (at 0) table ≡ some (some 3, rotated)
unfolding rotate_key renewed first_where replace next_id take_chars
bob_rotated = refl

rotation_hands_over_example :
    (old : KeyRow) × (first_where (has_id 2) table ≡ some old)
    × IsDead 2 rotated
    × (is_expired no_dates old (at 5) ≡ false
        → (db'' : List KeyRow) × (validate_key list_keys digest no_dates
              (raw_key "cc")
              (at 5)
              rotated
            ≡ some (some (record (info_of old) { id = 3; total_spend = 0 }), db'')))
rotation_hands_over_example =
    rotation_hands_over list_keys list_keys-Lawful digest no_dates 2 "cc" (at 0) (at 5) table
      list_keys-Writes cc-IsNew bob_rotated
