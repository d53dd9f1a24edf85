-- ===== src/Breaker/Restart.antt =====
-- What is in memory is what the table holds, under every call of src/api/circuit_breaker.py, so a
-- breaker that is built anew over the same table continues where the old one stopped.
use simple_lcp.Prelude.{
  ℕ, String, ◌≡◌, ◌∙◌, ap, refl, sym, Option, some, List, [], ◌∷◌, Option-cases, inl, inr, arith,
  lookup, Unique, lookup-drop_keys, drop_keys-Unique,
}
use simple_lcp.Breaker.Health.{Key, key_eq, Health, Now, Thresholds}
use simple_lcp.Breaker.Table.{Failover, HealthTable, Lawful, of_provider}
use simple_lcp.Breaker.Entries.{healed, failed, cleared, forced}
use simple_lcp.Breaker.Ops.{
  Breaker, new_breaker, attach_engine, peek, get_health, record_success, record_failure,
  forget_provider, reset, force_status, record_failover,
}
use simple_lcp.Breaker.Effects.{peek-get_health}
use simple_lcp.Breaker.Events.{
  Call, looks, checks, succeeds, fails, resets, forces, forgets, fails_over, step, run,
}
use simple_lcp.Breaker.Synced.{
  Reliable, lookup-load_rows, Synced, IsSynced, peek-key, get_health-IsSynced, rewrite-IsSynced,
  is_available-IsSynced,
}

module _ (T : HealthTable) (L : Lawful T) where
  module _ (R : Reliable L) where
    -- The three rewrites of an entry keep its `_key`.
    key-failed :
        (cfg : Thresholds) (h : Health) (error_type error_reason : Option String) (n : Now)
        → (failed cfg h error_type error_reason n).key ≡ h.key
    unfolding failed
    key-failed cfg h error_type error_reason n = ground arith

    key-forced :
        (cfg : Thresholds) (h h' : Health) (action : String) (now : ℕ)
        → forced cfg h action now ≡ some h'
        → h'.key ≡ h.key
    unfolding forced
    key-forced cfg h h' action now e = ground arith

    entry-key : (b : Breaker T) (k : Key) → IsSynced T L R b → (peek T (get_health T b k) k).key ≡ k
    entry-key b k (db, s) = ap (λ h. h.key) (peek-get_health T b k) ∙ peek-key T L R b db k s

    force_status-IsSynced :
        (b : Breaker T) (k : Key) (action : String) (n : Now)
        → IsSynced T L R b
        → IsSynced T L R (force_status T b k action n).1
    unfolding force_status
    force_status-IsSynced b k action n s =
        let b' = get_health T b k in
        elim (Option-cases (forced b'.config (peek T b' k) action n.time)) [
          | inl e ↦ rw e (get_health-IsSynced T L R b k s)
          | inr (h, e) ↦ rw e (
              rewrite-IsSynced T L R b k h n.iso s
                (key-forced b'.config (peek T b' k) h action n.time e ∙ entry-key b k s))
        ]

    forget_provider-IsSynced :
        (b : Breaker T) (p : String) → IsSynced T L R b → IsSynced T L R (forget_provider T b p).1
    unfolding forget_provider peek
    forget_provider-IsSynced b p (db, s) =
        let (n, db', e) = R.delete_returns p db in
        (
          db',
          record {
            attached = rw (s.attached, e);
            agree = λ j. ground (
              arith,
              s.attached,
              e,
              s.agree j,
              lookup-drop_keys (of_provider p) j b.health,
              lookup-drop_keys (of_provider p) j (L.rows db),
              L.delete_drops p db e,
            );
            unique =
                rw (L.delete_drops p db e).1
                  (drop_keys-Unique (of_provider p) (L.rows db) s.unique);
          },
        )

    record_failover-IsSynced :
        (b : Breaker T) (f : Failover) → IsSynced T L R b → IsSynced T L R (record_failover T b f)
    unfolding record_failover peek
    record_failover-IsSynced b f (db, s) = elim (Option-cases (T.add_failover f db)) [
      | inl e ↦
          rw (s.attached, e) (db, record { attached = refl; agree = s.agree; unique = s.unique })
      | inr (db', e) ↦
          rw (s.attached, e)
            (
              db',
              record {
                attached = refl;
                agree = rw (L.failover_keeps f db e) s.agree;
                unique = rw (L.failover_keeps f db e) s.unique;
              },
            )
    ]

    step-IsSynced : (b : Breaker T) (c : Call) → IsSynced T L R b → IsSynced T L R (step T b c)
    unfolding step record_success record_failure reset healed cleared
    step-IsSynced b (looks k) s = get_health-IsSynced T L R b k s
    step-IsSynced b (checks k n) s = is_available-IsSynced T L R b k n s
    step-IsSynced b (succeeds k n) s = rewrite-IsSynced T L R b k _ n.iso s (entry-key b k s)
    step-IsSynced b (fails k error_type error_reason n) s = rewrite-IsSynced T L R b k _ n.iso s (
        key-failed (get_health T b k).config (peek T (get_health T b k) k) error_type error_reason n
        ∙ entry-key b k s)
    step-IsSynced b (resets k n) s = rewrite-IsSynced T L R b k _ n.iso s (entry-key b k s)
    step-IsSynced b (forces k action n) s = force_status-IsSynced b k action n s
    step-IsSynced b (forgets p) s = forget_provider-IsSynced b p s
    step-IsSynced b (fails_over f) s = record_failover-IsSynced b f s

    pub run-IsSynced :
        (b : Breaker T) (cs : List Call) → IsSynced T L R b → IsSynced T L R (run T b cs)
    unfolding run
    run-IsSynced b [] s = s
    run-IsSynced b (c ∷ cs) s = run-IsSynced (step T b c) cs (step-IsSynced b c s)

    abbrev pub boot : Thresholds → T.Db → Breaker T
    boot cfg db = attach_engine T (new_breaker T cfg) db

    pub boot-Synced :
        (cfg : Thresholds) (db : T.Db) → Unique (L.rows db) → Synced T L (boot cfg db) db
    unfolding attach_engine new_breaker peek lookup
    boot-Synced cfg db u =
        let (rs, e) = R.all_returns db in
        record {
          attached = rw e;
          agree = λ j. ground (arith, e, L.all_reads db e, lookup-load_rows (L.rows db) [] j u);
          unique = u;
        }

    -- If the database keeps its rows and no session raises: whatever calls a breaker has served since
    -- it was built over a table with one row per key, a breaker that is built over the table they
    -- left, under any thresholds, reads every key as the old one did.
    pub restart_continues :
        (cfg cfg' : Thresholds) (db : T.Db) (cs : List Call)
        → Unique (L.rows db)
        → let b = run T (boot cfg db) cs in
          (db' : T.Db) × (b.engine ≡ some db') × ((j : Key) → peek T (boot cfg' db') j ≡ peek T b j)
    restart_continues cfg cfg' db cs u =
        let (db', s) = run-IsSynced (boot cfg db) cs (db, boot-Synced cfg db u) in
        (db', s.attached, λ j. (boot-Synced cfg' db' s.unique).agree j ∙ sym (s.agree j))
