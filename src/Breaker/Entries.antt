-- ===== src/Breaker/Entries.antt =====
-- What the methods of `CircuitBreaker` (src/api/circuit_breaker.py) do to one health entry, and
-- what its readers ask of one.
use simple_lcp.Prelude.{
  ℕ, ◌+◌, String, Bool, true, false, Option, none, some, List, [], ◌∷◌, ◌==◌, string_eq, leb,
  insert, if◌then◌else◌,
}
use simple_lcp.Breaker.Health.{
  Key, key_eq, Status, healthy, degraded, dead, Health, default_health, Thresholds, Now,
  error_weight,
}
use simple_lcp.Breaker.Table.{Row, Rows}

-- the entry of a loaded row
unfoldable pub of_row : Key → Row → Health
of_row k r = record {
  consecutive_failures = r.consecutive_failures;
  last_failure = r.last_failure;
  last_failure_reason = r.last_failure_reason;
  last_success = r.last_success;
  status = r.status;
  tripped_until = r.tripped_until;
  manual_override = r.manual_override;
  key = k;
}

-- the row that an entry is stored as
unfoldable pub to_row : Health → String → Row
to_row h now = record {
  status = h.status;
  consecutive_failures = h.consecutive_failures;
  last_failure = h.last_failure;
  last_failure_reason = h.last_failure_reason;
  last_success = h.last_success;
  tripped_until = h.tripped_until;
  manual_override = h.manual_override;
  updated_at = now;
}

unfoldable pub load_rows : Rows → List (Key × Health) → List (Key × Health)
load_rows [] m = m
load_rows ((k, r) ∷ rs) m = load_rows rs (insert k (of_row k r) m)

abbrev pub entry_or_default : Key → Option Health → Health
entry_or_default k none = default_health k
entry_or_default k (some h) = h

abbrev pub expired : Option ℕ → ℕ → Bool
expired none now = false
expired (some t) now = leb t now

abbrev pub is_tripped : Option ℕ → Bool
is_tripped none = false
is_tripped (some t) = true

-- one level up the ladder: dead → degraded → healthy
abbrev pub level_up : Status → Status
level_up dead = degraded
level_up _ = healthy

unfoldable pub healed : Health → String → Health
healed h now = record h {
  status = healthy;
  consecutive_failures = 0;
  last_success = some now;
  tripped_until = none;
  last_failure_reason = none;
  manual_override = none;
}

-- error_type or ""
abbrev pub or_empty : Option String → String
or_empty none = ""
or_empty (some s) = s

-- a reason that is missing or empty leaves the old one
abbrev newer_reason : Option String → Option String → Option String
newer_reason none old = old
newer_reason (some s) old = if s == "" then old else some s

counted : Health → Option String → Option String → String → Health
counted h error_type error_reason now = record h {
  consecutive_failures = h.consecutive_failures + error_weight (or_empty error_type);
  last_failure = some now;
  last_failure_reason = newer_reason error_reason h.last_failure_reason;
}

tripped : Thresholds → Health → ℕ → Health
tripped cfg h now =
    if leb cfg.failures_dead h.consecutive_failures
    then record h { status = dead; tripped_until = some (now + cfg.dead_cooldown_seconds) }
    else if leb cfg.failures_degraded h.consecutive_failures
    then record h { status = degraded; tripped_until = some (now + cfg.degraded_cooldown_seconds) }
    else h

unfoldable pub failed : Thresholds → Health → Option String → Option String → Now → Health
unfolding counted tripped
failed cfg h error_type error_reason now =
    tripped cfg (counted h error_type error_reason now.iso) now.time

unfoldable pub cleared : Health → Health
cleared h = record h {
  status = healthy;
  consecutive_failures = 0;
  last_failure = none;
  last_failure_reason = none;
  tripped_until = none;
  manual_override = none;
}

-- The entry under a manual action; `none` is the ValueError of an unknown one.
unfoldable pub forced : Thresholds → Health → String → ℕ → Option Health
unfolding cleared
forced cfg h action now =
    if action == "degrade"
    then some (record h {
      status = degraded;
      tripped_until = some (now + cfg.degraded_cooldown_seconds);
      manual_override = some degraded;
    })
    else if action == "kill"
    then some (record h { status = dead; tripped_until = none; manual_override = some dead })
    else if action == "resume"
    then some (cleared h)
    else none

pub record Stats : Type 0 where
  pub total : ℕ
  pub healthy_entries : ℕ
  pub degraded_entries : ℕ
  pub dead_entries : ℕ
