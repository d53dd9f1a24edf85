-- ===== src/Breaker/Health.antt =====
-- The health entries of src/api/circuit_breaker.py: the dictionary's keys and values, the weights
-- of the errors, and the `circuit_breaker` section of the configuration.
use simple_lcp.Prelude.{
  ℕ, String, ◌≡◌, ◌↔◌, Bool, true, false, ◌&&◌, Option, none, Eq, ◌==◌, string_eq, nat_eq, arith,
  if◌then◌else◌,
}

-- (provider, base_url, profile)
pub record Key : Type 0 where
  pub provider : String
  pub base_url : String
  pub profile : String

abbrev key_beq : Key → Key → Bool
key_beq a b = a.provider == b.provider && (a.base_url == b.base_url && a.profile == b.profile)

pub key_beq_iff : (a b : Key) → (key_beq a b ≡ true) ↔ (a ≡ b)
key_beq_iff a b = ground (
  arith,
  string_eq.beq_iff a.provider b.provider,
  string_eq.beq_iff a.base_url b.base_url,
  string_eq.beq_iff a.profile b.profile,
)

instance abbrev pub key_eq : Eq Key
key_eq = record { beq = key_beq; beq_iff = key_beq_iff }

-- 'healthy' | 'degraded' | 'dead'
pub data Status : Type 0 where
  healthy degraded dead : Status

abbrev pub is_healthy : Status → Bool
is_healthy healthy = true
is_healthy _ = false

abbrev pub is_degraded : Status → Bool
is_degraded degraded = true
is_degraded _ = false

abbrev pub is_dead : Status → Bool
is_dead dead = true
is_dead _ = false

-- One health entry. Times are epoch seconds; the other stamps are ISO texts.
pub record Health : Type 0 where
  pub consecutive_failures : ℕ
  pub last_failure : Option String
  pub last_failure_reason : Option String
  pub last_success : Option String
  pub status : Status
  pub tripped_until : Option ℕ
  pub manual_override : Option Status
  pub key : Key

unfoldable pub default_health : Key → Health
default_health k = record {
  consecutive_failures = 0;
  last_failure = none;
  last_failure_reason = none;
  last_success = none;
  status = healthy;
  tripped_until = none;
  manual_override = none;
  key = k;
}

-- config.circuit_breaker
pub record Thresholds : Type 0 where
  pub failures_degraded : ℕ
  pub failures_dead : ℕ
  pub degraded_cooldown_seconds : ℕ
  pub dead_cooldown_seconds : ℕ

-- What a call reads from the clock: `time.time()` and `datetime.now(utc).isoformat()`.
pub record Now : Type 0 where
  pub time : ℕ
  pub iso : String

-- _ERROR_WEIGHTS.get(error_type or "", 1)
unfoldable pub error_weight : String → ℕ
error_weight name =
    if name == "ProviderAuthError" then 3 else if name == "ProviderCreditsError" then 3 else 1
