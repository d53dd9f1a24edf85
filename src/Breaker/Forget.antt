-- ===== src/Breaker/Forget.antt =====
-- `forget_provider` of src/api/circuit_breaker.py: a deleted provider does not come back.
use simple_lcp.Prelude.{
  ◌≡◌, ◌≢◌, String, none, some, List, [], drop_keys-Unique, string_eq, lookup, arith,
  lookup-drop_keys, Unique,
}
use simple_lcp.Breaker.Health.{Key, key_eq, Thresholds}
use simple_lcp.Breaker.Table.{HealthTable, Lawful, of_provider}
use simple_lcp.Breaker.Ops.{attach_engine, new_breaker, forget_provider}
use simple_lcp.Breaker.Effects.{entry, entry-forget_provider}
use simple_lcp.Breaker.Events.{Call, run}
use simple_lcp.Breaker.Restart.{run-IsSynced, boot, boot-Synced}
use simple_lcp.Breaker.Synced.{Reliable, lookup-load_rows}

module _ (T : HealthTable) (L : Lawful T) (R : Reliable L) where
  entry-boot :
      (cfg : Thresholds) (db : T.Db) (j : Key)
      → Unique (L.rows db)
      → lookup j (L.rows db) ≡ none
      → entry T (boot T L R cfg db) j ≡ none
  unfolding attach_engine new_breaker lookup
  entry-boot cfg db j u e =
      let (rs, a) = R.all_returns db in
      ground (arith, a, e, L.all_reads db a, lookup-load_rows (L.rows db) [] j u)

  -- If the database keeps its rows and no session raises: after any history over a table with one
  -- row per key, forgetting a provider leaves no entry of it in memory, and a breaker built later
  -- over the table has none either; the entries of the other providers stay as they were.
  pub forgotten_stays_forgotten :
      (cfg cfg' : Thresholds) (db : T.Db) (cs : List Call) (p : String)
      → Unique (L.rows db)
      → let b = run T (boot T L R cfg db) cs in
        let b' = (forget_provider T b p).1 in
        (db' : T.Db) × (b'.engine ≡ some db')
        × ((j : Key)
            → j.provider ≡ p
            → (entry T b' j ≡ none) × (entry T (boot T L R cfg' db') j ≡ none))
        × ((j : Key) → j.provider ≢ p → entry T b' j ≡ entry T b j)
  unfolding forget_provider
  forgotten_stays_forgotten cfg cfg' db cs p u =
      let b = run T (boot T L R cfg db) cs in
      let (d, s) = run-IsSynced T L R (boot T L R cfg db) cs (db, boot-Synced T L R cfg db u) in
      let (n, d', e) = R.delete_returns p d in
      let drops = (L.delete_drops p d e).1 in
      (
        d',
        rw (s.attached, e),
        λ j same. (
          ground (arith, entry-forget_provider T b p j, string_eq.beq_iff j.provider p),
          entry-boot cfg' d' j (rw drops (drop_keys-Unique (of_provider p) (L.rows d) s.unique)) (
              ground (
                arith,
                drops,
                lookup-drop_keys (of_provider p) j (L.rows d),
                string_eq.beq_iff j.provider p,
              )),
        ),
        λ j other. ground (arith, entry-forget_provider T b p j, string_eq.beq_iff j.provider p),
      )
