-- ===== src/Settings/Table.antt =====
-- The `settings` table as src/api/cost_cache.py uses it through SQLAlchemy: every session may raise,
-- which is `none`. `Lawful` is what the code relies on, and `dict_settings` is a table that keeps it.
use simple_lcp.Prelude.{
  some-inj, String, ◌≡◌, sym, ap, ◌∙◌, subst, Option, none, some, List, ◌==◌, string_eq, lookup,
  insert, drop_keys, Unique, insert-Unique, drop_keys-Unique, lookup-insert, lookup-drop_keys,
  if◌then◌else◌,
}

pub record SettingsTable : Type 1 where
  pub Db : Type 0
  pub all : Db → Option (List (String × String))
  pub put : String → String → Db → Option Db
  pub delete : String → Db → Option Db

-- The key is the primary key; and a session that comes to an end has written or deleted the one row,
-- and leaves a table that can be read if it could before.
pub record Lawful (T : SettingsTable) : Type 0 where
  pub one_row : (db : T.Db) (rows : List (String × String)) → T.all db ≡ some rows → Unique rows
  pub put_reads :
      (k v : String) (db db' : T.Db) (rows : List (String × String))
      → T.all db ≡ some rows
      → T.put k v db ≡ some db'
      → (rows' : List (String × String)) × (T.all db' ≡ some rows')
        × ((j : String) → lookup j rows' ≡ (if k == j then some v else lookup j rows))
  pub delete_reads :
      (k : String) (db db' : T.Db) (rows : List (String × String))
      → T.all db ≡ some rows
      → T.delete k db ≡ some db'
      → (rows' : List (String × String)) × (T.all db' ≡ some rows')
        × ((j : String) → lookup j rows' ≡ (if k == j then none else lookup j rows))

-- a list of rows with no key twice
pub record Rows : Type 0 where
  pub rows : List (String × String)
  pub unique : Unique rows

abbrev pub dict_settings : SettingsTable
dict_settings = record {
  Db = Rows;
  all = λ db. some db.rows;
  put = λ k v db.
      some (record { rows = insert k v db.rows; unique = insert-Unique k v db.rows db.unique });
  delete = λ k db. some (record {
    rows = drop_keys (λ (j : String). k == j) db.rows;
    unique = drop_keys-Unique (λ (j : String). k == j) db.rows db.unique;
  });
}

pub dict-Lawful : Lawful dict_settings
dict-Lawful = record {
  one_row = λ db rows e. subst (λ rs. Unique rs) (some-inj e) db.unique;
  put_reads = λ k v db db' rows e f. (
    insert k v rows,
    sym (ap (λ (d : Rows). some d.rows) (some-inj f))
        ∙ ap (λ rs. some (insert k v rs)) (some-inj e),
    λ j. lookup-insert k j v rows,
  );
  delete_reads = λ k db db' rows e f. (
    drop_keys (λ (j : String). k == j) rows,
    sym (ap (λ (d : Rows). some d.rows) (some-inj f))
        ∙ ap (λ rs. some (drop_keys (λ (j : String). k == j) rs)) (some-inj e),
    λ j. lookup-drop_keys (λ (i : String). k == i) j rows,
  );
}
