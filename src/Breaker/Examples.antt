-- ===== src/Breaker/Examples.antt =====
-- Runs of the breaker (src/api/circuit_breaker.py) over a table kept as a list, with the thresholds
-- of SEED_CONFIG in src/api/config.py.
use simple_lcp.Prelude.{
  ℕ, true, lookup, ◌≡◌, ◌≢◌, refl, none, some, List, [], ◌∷◌, arith, string_eq,
}
use simple_lcp.Breaker.Health.{Key, dead, Health, Thresholds, Now, default_health, error_weight}
use simple_lcp.Breaker.Table.{Rows, list_table, list_table-Lawful}
use simple_lcp.Breaker.Ops.{Breaker, peek, is_available, record_failure, forget_provider}
use simple_lcp.Breaker.Effects.{entry}
use simple_lcp.Breaker.Events.{Call, fails, checks, run}
use simple_lcp.Breaker.Ladder.{Failure, grade, total_weight, record_failures, status_after_failures}
use simple_lcp.Breaker.Manual.{killed, kill_lost_by_failure}
use simple_lcp.Breaker.Restart.{boot, restart_continues}
use simple_lcp.Breaker.Synced.{Reliable}
use simple_lcp.Breaker.Forget.{forgotten_stays_forgotten}

abbrev seed : Thresholds
seed = record {
  failures_degraded = 3;
  failures_dead = 6;
  degraded_cooldown_seconds = 30;
  dead_cooldown_seconds = 120;
}

abbrev deepseek : Key
deepseek = record { provider = "deepseek"; base_url = "https://api"; profile = "l2" }

abbrev other_key : Key
other_key = record { provider = "opencode"; base_url = "https://zen"; profile = "l2" }

abbrev at : ℕ → Now
at t = record { time = t; iso = "2026-01-01T00:00:00+00:00" }

abbrev auth_failure : ℕ → Failure
auth_failure t = record {
  error_type = some "ProviderAuthError";
  error_reason = some "rejected";
  at = at t;
}

abbrev fresh : Breaker list_table
fresh = record { config = seed; health = []; engine = none }

deepseek_named : deepseek.provider ≢ ""
deepseek_named e = ground (arith, string_eq.beq_iff "deepseek" "")

abbrev struck : List Failure
struck = auth_failure 0 ∷ auth_failure 10 ∷ []

status_after_failures_example :
    let b = record_failures list_table fresh deepseek struck in
    ((peek list_table b deepseek).status ≡ grade seed (total_weight struck))
    × ((peek list_table b deepseek).consecutive_failures ≡ total_weight struck)
unfolding peek default_health lookup
status_after_failures_example =
    status_after_failures list_table fresh deepseek struck (omega arith) (omega arith) refl refl

-- Two rejected keys in a row are enough.
two_auth_failures_kill : grade seed (total_weight struck) ≡ dead
unfolding grade total_weight error_weight
two_auth_failures_kill = refl

abbrev dead_health : Health
dead_health = record {
  consecutive_failures = 6;
  last_failure = none;
  last_failure_reason = none;
  last_success = none;
  status = dead;
  tripped_until = some 130;
  manual_override = none;
  key = deepseek;
}

abbrev down : Breaker list_table
down = record { config = seed; health = (deepseek, dead_health) ∷ []; engine = none }

kill_lost_by_failure_example :
    let b =
      record_failure list_table
        (killed list_table down deepseek (at 0))
        deepseek
        (some "ProviderAuthError")
        (some "rejected")
        (at 10) in
    (is_available list_table b deepseek (at 130)).0 ≡ true
unfolding peek lookup
kill_lost_by_failure_example =
    kill_lost_by_failure list_table down deepseek (at 0) (at 130) (auth_failure 10) deepseek_named
      (omega arith) (omega arith)

list_table-Reliable : Reliable list_table-Lawful
list_table-Reliable = record {
  first_returns = λ db k. (_, refl);
  add_returns = λ k r db new. (_, refl);
  write_returns = λ k r db. (_, refl);
  all_returns = λ db. (_, refl);
  delete_returns = λ p db. (_, _, refl);
}

abbrev history : List Call
history = fails deepseek (some "ProviderAuthError") none (at 3) ∷ checks other_key (at 4) ∷ []

restart_continues_example :
    let b =
      run list_table (boot list_table list_table-Lawful list_table-Reliable seed []) history in
    (db : Rows) × (b.engine ≡ some db)
    × ((j : Key)
        → peek list_table (boot list_table list_table-Lawful list_table-Reliable seed db) j
          ≡ peek list_table b j)
unfolding list_table-Lawful
restart_continues_example =
    restart_continues list_table list_table-Lawful list_table-Reliable seed seed [] history tt

forgotten_stays_forgotten_example :
    let b =
      run list_table (boot list_table list_table-Lawful list_table-Reliable seed []) history in
    let b' = (forget_provider list_table b "deepseek").1 in
    (db : Rows) × (b'.engine ≡ some db)
    × ((j : Key)
        → j.provider ≡ "deepseek"
        → (entry list_table b' j ≡ none)
          × (entry list_table (boot list_table list_table-Lawful list_table-Reliable seed db) j
              ≡ none))
    × ((j : Key) → j.provider ≢ "deepseek" → entry list_table b' j ≡ entry list_table b j)
unfolding list_table-Lawful
forgotten_stays_forgotten_example =
    forgotten_stays_forgotten list_table list_table-Lawful list_table-Reliable seed seed [] history
      "deepseek" tt
