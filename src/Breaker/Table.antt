-- ===== src/Breaker/Table.antt =====
-- What src/api/circuit_breaker.py asks of the database: the sessions on the `provider_health` and
-- `failover_events` tables of src/api/models.py. The database itself is not part of the program, so
-- it is a parameter; `none` is a call that raised.
use simple_lcp.Prelude.{
  ℕ, String, ◌≡◌, Bool, Option, none, some, List, ◌==◌, string_eq, lookup, insert, drop_keys,
  count_if, sym, ap,
}
use mathlib.Core.Option.{some-injective}
use simple_lcp.Breaker.Health.{Key, Status, key_eq}

-- A row of `provider_health`, its key apart.
pub record Row : Type 0 where
  pub status : Status
  pub consecutive_failures : ℕ
  pub last_failure : Option String
  pub last_failure_reason : Option String
  pub last_success : Option String
  pub tripped_until : Option ℕ
  pub manual_override : Option Status
  pub updated_at : String

abbrev pub Rows : Type 0
Rows = List (Key × Row)

-- A row of `failover_events`.
pub record Failover : Type 0 where
  pub profile : String
  pub from_provider : String
  pub to_provider : String
  pub reason : String
  pub error_message : Option String
  pub request_id : Option ℕ

-- The rows of one provider.
abbrev pub of_provider : String → Key → Bool
of_provider p k = k.provider == p

pub record HealthTable : Type 1 where
  pub Db : Type 0
  -- query(ProviderHealth).filter_by(provider, base_url, profile).first()
  pub first : Db → Key → Option (Option Row)
  -- session.add(ProviderHealth(…)); session.commit()
  pub add : Key → Row → Db → Option Db
  -- the row's attributes assigned; session.commit()
  pub write : Key → Row → Db → Option Db
  -- query(ProviderHealth).all()
  pub all : Db → Option Rows
  -- query(ProviderHealth).filter_by(provider).delete(); session.commit()
  pub delete : String → Db → Option (ℕ × Db)
  -- session.add(FailoverEvent(…)); session.commit()
  pub add_failover : Failover → Db → Option Db

-- What the program relies on: the calls that return have read or written the committed rows.
pub record Lawful (T : HealthTable) : Type 0 where
  pub rows : T.Db → Rows
  pub first_reads :
      (db : T.Db) (k : Key) {o : Option Row} → T.first db k ≡ some o → o ≡ lookup k (rows db)
  pub add_appends :
      (k : Key) (r : Row) (db : T.Db) {db' : T.Db}
      → lookup k (rows db) ≡ none
      → T.add k r db ≡ some db'
      → rows db' ≡ insert k r (rows db)
  pub write_updates :
      (k : Key) (r : Row) (db : T.Db) {db' : T.Db}
      → T.write k r db ≡ some db'
      → rows db' ≡ insert k r (rows db)
  pub all_reads : (db : T.Db) {rs : Rows} → T.all db ≡ some rs → rs ≡ rows db
  pub delete_drops :
      (p : String) (db : T.Db) {n : ℕ} {db' : T.Db}
      → T.delete p db ≡ some (n, db')
      → (n ≡ count_if (λ e. of_provider p e.0) (rows db))
        × (rows db' ≡ drop_keys (of_provider p) (rows db))
  pub failover_keeps :
      (f : Failover) (db : T.Db) {db' : T.Db} → T.add_failover f db ≡ some db' → rows db' ≡ rows db

-- A table kept as the list of its rows: every call succeeds.
abbrev pub list_table : HealthTable
list_table = record {
  Db = Rows;
  first = λ rs k. some (lookup k rs);
  add = λ k r rs. some (insert k r rs);
  write = λ k r rs. some (insert k r rs);
  all = λ rs. some rs;
  delete = λ p rs. some (count_if (λ e. of_provider p e.0) rs, drop_keys (of_provider p) rs);
  add_failover = λ f rs. some rs;
}

unfoldable pub list_table-Lawful : Lawful list_table
list_table-Lawful = record {
  rows = λ rs. rs;
  first_reads = λ db k h. sym (some-injective _ _ h);
  add_appends = λ k r db new h. sym (some-injective _ _ h);
  write_updates = λ k r db h. sym (some-injective _ _ h);
  all_reads = λ db h. sym (some-injective _ _ h);
  delete_drops = λ p db h.
      (sym (ap (λ x. x.0) (some-injective _ _ h)), sym (ap (λ x. x.1) (some-injective _ _ h)));
  failover_keeps = λ f db h. sym (some-injective _ _ h);
}
