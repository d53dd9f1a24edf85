-- ===== src/Settings/Store.antt =====
-- `SettingsStore` of src/api/cost_cache.py: the cache of the rows, filled at the first read, and the
-- writes that go through to the table. The lock is left out; an exception of a write is `none`.
use simple_lcp.Prelude.{
  String, Bool, true, false, Option, none, some, List, [], ◌∷◌, string_eq, lookup, insert, remove,
  if◌then◌else◌,
}
use simple_lcp.Settings.Table.{SettingsTable}

-- self._cache[row.key] = row.value, for each row
unfoldable pub cache_rows : List (String × String) → List (String × String) → List (String × String)
cache_rows [] cache = cache
cache_rows ((k, v) ∷ rows) cache = cache_rows rows (insert k v cache)

module _ (T : SettingsTable) where
  pub record SettingsStore : Type 0 where
    pub engine : Option T.Db
    pub cache : List (String × String)
    pub loaded : Bool

  -- SettingsStore(engine)
  unfoldable pub new_store : Option T.Db → SettingsStore
  new_store engine = record { engine = engine; cache = []; loaded = false }

  load_rows : SettingsStore → Option (List (String × String)) → SettingsStore
  load_rows s none = s
  load_rows s (some rows) = record s { cache = cache_rows rows s.cache; loaded = true }

  load_from : SettingsStore → Option T.Db → SettingsStore
  unfolding load_rows
  load_from s none = s
  load_from s (some db) = load_rows s (T.all db)

  unfoldable pub ensure_loaded : SettingsStore → SettingsStore
  unfolding load_from
  ensure_loaded s = if s.loaded then s else load_from s s.engine

  -- `get`: the state after it is `ensure_loaded s`
  unfoldable pub get : SettingsStore → String → Option String
  get s key = lookup key (ensure_loaded s).cache

  -- the session of `set`: without an engine it raises
  unfoldable pub written : String → String → Option T.Db → Option T.Db
  written key text none = none
  written key text (some db) = T.put key text db

  unfoldable pub stored : SettingsStore → String → String → Option T.Db → Option SettingsStore
  stored s key text none = none
  stored s key text (some db) =
      some (record { engine = some db; cache = insert key text s.cache; loaded = true })

  unfoldable pub set : SettingsStore → String → String → Option SettingsStore
  unfolding written stored
  set s key text = stored s key text (written key text s.engine)

  -- the session of `_clear_key`
  unfoldable pub deleted_row : String → Option T.Db → Option T.Db
  deleted_row key none = none
  deleted_row key (some db) = T.delete key db

  unfoldable pub dropped : SettingsStore → String → Option T.Db → SettingsStore
  dropped s key none = s
  dropped s key (some db) = record s { engine = some db; cache = remove key s.cache }

  -- `_clear_key`, which swallows what its session raises
  unfoldable pub clear_key : SettingsStore → String → SettingsStore
  unfolding deleted_row dropped
  clear_key s key = dropped s key (deleted_row key s.engine)
