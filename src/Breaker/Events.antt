-- ===== src/Breaker/Events.antt =====
-- The calls that reach a breaker (src/api/circuit_breaker.py), one after another.
use simple_lcp.Prelude.{String, Option, List, [], ◌∷◌}
use simple_lcp.Breaker.Health.{Key, Now}
use simple_lcp.Breaker.Table.{Failover, HealthTable}
use simple_lcp.Breaker.Ops.{
  Breaker, get_health, is_available, record_success, record_failure, forget_provider, reset,
  force_status, record_failover,
}

pub data Call : Type 0 where
  looks : Key → Call
  checks : Key → Now → Call
  succeeds : Key → Now → Call
  fails : Key → Option String → Option String → Now → Call
  resets : Key → Now → Call
  forces : Key → String → Now → Call
  forgets : String → Call
  fails_over : Failover → Call

module _ (T : HealthTable) where
  unfoldable pub step : Breaker T → Call → Breaker T
  step b (looks k) = get_health T b k
  step b (checks k n) = (is_available T b k n).1
  step b (succeeds k n) = record_success T b k n
  step b (fails k error_type error_reason n) = record_failure T b k error_type error_reason n
  step b (resets k n) = reset T b k n
  step b (forces k action n) = (force_status T b k action n).1
  step b (forgets p) = (forget_provider T b p).1
  step b (fails_over f) = record_failover T b f

  unfoldable pub run : Breaker T → List Call → Breaker T
  run b [] = b
  run b (c ∷ cs) = run (step b c) cs
