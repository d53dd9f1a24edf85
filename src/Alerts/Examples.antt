-- ===== src/Alerts/Examples.antt =====
-- Runs of the alert manager (src/api/alert_manager.py) without a table.
use simple_lcp.Prelude.{
  ℕ, String, ◌≡◌, ◌≢◌, refl, true, none, some, List, [], ◌∷◌, string_eq, arith, lookup,
}
use simple_lcp.Alerts.Manager.{
  Settings, AlertTable, Event, Clock, Manager, level, passes, cooling, alert_of, fire, Call, fires,
  resolves, run,
}
use simple_lcp.Alerts.Cooldown.{no_repeat_within_cooldown}

abbrev no_table : AlertTable
no_table = record {
  Db = ℕ;
  add = λ a db. none;
  resolve = λ k now db. none;
  acknowledge = λ k now db. none;
}

abbrev show : ℕ → String
show n = "0"

abbrev settings : Settings
settings = record {
  rules = ("provider_dead", record { enabled = some true; min_severity = some "critical" }) ∷ [];
  cooldown_seconds = 300;
}

abbrev quiet : Manager no_table show
quiet = record {
  settings = settings;
  history = [];
  active = [];
  last_fire = [];
  fired = 0;
  engine = none;
}

abbrev dead_provider : Event
dead_provider = record {
  rule = "provider_dead";
  severity = "critical";
  title = "dead";
  message = "deepseek is dead";
  dedup_key = "dead:deepseek";
}

abbrev at : ℕ → Clock
at t = record { time = t; iso = "2026-01-01" }

it_fires :
    (fire no_table show quiet dead_provider (at 1000)).0
    ≡ some (alert_of no_table show quiet dead_provider (at 1000))
unfolding fire passes cooling level lookup
it_fires = refl

named : dead_provider.dedup_key ≢ ""
named e = ground (arith, string_eq.beq_iff "dead:deepseek" "")

abbrev between : List (Call no_table show)
between = resolves "dead:deepseek" (at 1100) ∷ fires dead_provider (at 1150) ∷ []

no_repeat_within_cooldown_example :
    let m = run no_table show (fire no_table show quiet dead_provider (at 1000)).1 between in
    fire no_table show m dead_provider (at 1200) ≡ (none, m)
no_repeat_within_cooldown_example =
    no_repeat_within_cooldown no_table show quiet dead_provider (at 1000) named it_fires between
      (omega arith, (omega arith, tt)) dead_provider (at 1200) refl (omega arith)

abbrev gone : String
gone = "dead:deepseek"

abbrev kept : String
kept = "budget"
