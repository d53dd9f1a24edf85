-- ===== src/Settings/Coherent.antt =====
-- The cache of `SettingsStore` (src/api/cost_cache.py) against the table it writes through to.
use simple_lcp.Prelude.{
  some-inj, String, ◌≡◌, ◌≢◌, refl, sym, ap, ◌∙◌, true, Option, none, some, List, [], ◌∷◌, ◌==◌,
  string_eq, lookup, insert, Unique, lookup-insert, lookup-remove, if◌then◌else◌, arith,
}
use simple_lcp.Settings.Table.{SettingsTable, Lawful}
use simple_lcp.Settings.Store.{
  SettingsStore, cache_rows, new_store, ensure_loaded, get, written, stored, set, deleted_row,
  dropped, clear_key,
}

abbrev found_or : Option String → Option String → Option String
found_or none other = other
found_or (some v) other = some v

lookup-cache_rows :
    (j : String) (rows cache : List (String × String))
    → Unique rows
    → lookup j (cache_rows rows cache) ≡ found_or (lookup j rows) (lookup j cache)
unfolding cache_rows lookup
lookup-cache_rows j [] cache u = refl
lookup-cache_rows j ((k, v) ∷ rows) cache u = ground (
  arith,
  lookup-cache_rows j rows (insert k v cache) u.1,
  lookup-insert k j v cache,
  string_eq.beq_iff k j,
)

found_or-none : (o : Option String) → found_or o none ≡ o
found_or-none none = refl
found_or-none (some v) = refl

module _ (T : SettingsTable) where
  -- The store has read its table, which can be read, and holds the same.
  abbrev IsCoherent : SettingsStore T → Type 0
  IsCoherent s =
      (db : T.Db) × (rows : List (String × String)) × (s.engine ≡ some db)
      × (T.all db ≡ some rows)
      × (s.loaded ≡ true)
      × ((j : String) → lookup j s.cache ≡ lookup j rows)

  -- A loaded store reads its cache.
  pub get-loaded :
      (s : SettingsStore T) (j : String) → s.loaded ≡ true → get T s j ≡ lookup j s.cache
  unfolding get ensure_loaded
  get-loaded s j on = rw on refl

  stored-some :
      (s s' : SettingsStore T) (k v : String) (o : Option T.Db)
      → stored T s k v o ≡ some s'
      → (db : T.Db) × (o ≡ some db)
        × (s'.engine ≡ some db)
        × (s'.cache ≡ insert k v s.cache)
        × (s'.loaded ≡ true)
  unfolding stored
  stored-some s s' k v none h = cc
  stored-some s s' k v (some db) h =
      let e = sym (some-inj h) in
      (
        db,
        refl,
        ap (λ (x : SettingsStore T). x.engine) e,
        ap (λ (x : SettingsStore T). x.cache) e,
        ap (λ (x : SettingsStore T). x.loaded) e,
      )

  -- What a write that does not raise leaves.
  set-stores :
      (s s' : SettingsStore T) (k v : String)
      → set T s k v ≡ some s'
      → (db : T.Db) × (written T k v s.engine ≡ some db)
        × (s'.engine ≡ some db)
        × (s'.cache ≡ insert k v s.cache)
        × (s'.loaded ≡ true)
  unfolding set
  set-stores s s' k v h = stored-some s s' k v (written T k v s.engine) h

  pub get-set :
      (s s' : SettingsStore T) (k v : String)
      → set T s k v ≡ some s'
      → (j : String) → get T s' j ≡ (if k == j then some v else lookup j s.cache)
  get-set s s' k v h j =
      let (db, e, engine, cache, loaded) = set-stores s s' k v h in
      get-loaded s' j loaded ∙ ap (lookup j) cache ∙ lookup-insert k j v s.cache

  -- A store that is written before it was ever read counts as loaded from then on: of all that the
  -- table holds it reads only what was written, whatever the table holds under the other keys.
  pub early_write_hides_rows :
      Lawful T
      → (db : T.Db) (rows : List (String × String)) (k v j : String) (s' : SettingsStore T)
      → T.all db ≡ some rows
      → set T (new_store T (some db)) k v ≡ some s'
      → k ≢ j
      → (rows' : List (String × String)) × (db' : T.Db) × (s'.engine ≡ some db')
        × (T.all db' ≡ some rows')
        × (lookup j rows' ≡ lookup j rows)
        × (get T s' j ≡ none)
  unfolding written lookup new_store
  early_write_hides_rows law db rows k v j s' readable h other =
      let s = new_store T (some db) in
      let (db', e, engine, cache, loaded) = set-stores s s' k v h in
      let (rows', r, reads) = law.put_reads k v db db' rows readable e in
      (
        rows',
        db',
        engine,
        r,
        reads j ∙ ground (arith, string_eq.beq_iff k j),
        get-set s s' k v h j ∙ ground (arith, string_eq.beq_iff k j),
      )

  set-IsCoherent :
      Lawful T
      → (s s' : SettingsStore T) (k v : String) → IsCoherent s
      → set T s k v ≡ some s'
      → IsCoherent s'
  unfolding written
  set-IsCoherent law s s' k v (db, rows, engine, readable, on, same) h =
      let (db', e, engine', cache, loaded) = set-stores s s' k v h in
      let put : T.put k v db ≡ some db' = ap (written T k v) (sym engine) ∙ e in
      let (rows', r, reads) = law.put_reads k v db db' rows readable put in
      (
        db',
        rows',
        engine',
        r,
        loaded,
        λ j.
            ap (lookup j) cache
            ∙ lookup-insert k j v s.cache
            ∙ ap (λ o. if k == j then some v else o) (same j)
            ∙ sym (reads j),
      )

  dropped-IsCoherent :
      Lawful T
      → (s : SettingsStore T) (k : String) (o : Option T.Db) → IsCoherent s
      → deleted_row T k s.engine ≡ o
      → IsCoherent (dropped T s k o)
  unfolding dropped deleted_row
  dropped-IsCoherent law s k none c h = c
  dropped-IsCoherent law s k (some db') (db, rows, engine, readable, on, same) h =
      let deleted : T.delete k db ≡ some db' = ap (deleted_row T k) (sym engine) ∙ h in
      let (rows', r, reads) = law.delete_reads k db db' rows readable deleted in
      (
        db',
        rows',
        refl,
        r,
        on,
        λ j.
            lookup-remove k j s.cache
            ∙ ap (λ o. if k == j then none else o) (same j)
            ∙ sym (reads j),
      )

  pub data Call : Type 0 where
    sets : String → String → Call
    clears : String → Call

  abbrev kept : SettingsStore T → Option (SettingsStore T) → SettingsStore T
  kept s none = s
  kept s (some s') = s'

  -- A write that raises leaves the store as it was.
  abbrev pub step : SettingsStore T → Call → SettingsStore T
  step s (sets k v) = kept s (set T s k v)
  step s (clears k) = clear_key T s k

  abbrev pub run : SettingsStore T → List Call → SettingsStore T
  run s [] = s
  run s (c ∷ calls) = run (step s c) calls

  kept-IsCoherent :
      (s : SettingsStore T) (o : Option (SettingsStore T))
      → IsCoherent s
      → ((s' : SettingsStore T) → o ≡ some s' → IsCoherent s')
      → IsCoherent (kept s o)
  kept-IsCoherent s none c f = c
  kept-IsCoherent s (some s') c f = f s' refl

  step-IsCoherent :
      Lawful T → (s : SettingsStore T) (c : Call) → IsCoherent s → IsCoherent (step s c)
  unfolding clear_key
  step-IsCoherent law s (sets k v) c =
      kept-IsCoherent s (set T s k v) c (λ s'. set-IsCoherent law s s' k v c)
  step-IsCoherent law s (clears k) c = dropped-IsCoherent law s k (deleted_row T k s.engine) c refl

  run-IsCoherent :
      Lawful T → (s : SettingsStore T) (calls : List Call) → IsCoherent s → IsCoherent (run s calls)
  run-IsCoherent law s [] c = c
  run-IsCoherent law s (k ∷ calls) c =
      run-IsCoherent law (step s k) calls (step-IsCoherent law s k c)

  get-new_store :
      Lawful T
      → (db : T.Db) (rows : List (String × String)) (j : String) → T.all db ≡ some rows
      → get T (new_store T (some db)) j ≡ lookup j rows
  unfolding get ensure_loaded new_store lookup
  get-new_store law db rows j readable =
      rw readable
        (lookup-cache_rows j rows [] (law.one_row db rows readable) ∙ found_or-none (lookup j rows))

  -- Over a table that keeps its rows: whatever is written and cleared through a store that has read
  -- its table, and whichever of these sessions raise, the store reads what its table holds, so that a
  -- store that is built over the table after it reads every setting as the old one does.
  pub settings_survive_restart :
      Lawful T
      → (s : SettingsStore T) (calls : List Call) → IsCoherent s
      → let s' = run s calls in
        (db : T.Db) × (s'.engine ≡ some db)
        × ((j : String) → get T (new_store T (some db)) j ≡ get T s' j)
  settings_survive_restart law s calls c =
      let s' = run s calls in
      let (db, rows, engine, readable, on, same) = run-IsCoherent law s calls c in
      (db, engine, λ j. get-new_store law db rows j readable ∙ sym (get-loaded s' j on ∙ same j))
