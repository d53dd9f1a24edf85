-- ===== src/Breaker/Manual.antt =====
-- The manual kill of src/api/circuit_breaker.py (`force_status`): what keeps it and what ends it.
use simple_lcp.Prelude.{
  ℕ, ◌+◌, ◌≤◌, ◌≡◌, ◌≢◌, refl, true, false, none, some, List, [], ◌∷◌, string_eq, arith,
}
use simple_lcp.Breaker.Health.{Key, key_eq, healthy, dead, Now, error_weight}
use simple_lcp.Breaker.Table.{HealthTable}
use simple_lcp.Breaker.Entries.{or_empty, failed, forced}
use simple_lcp.Breaker.Ops.{Breaker, peek, is_available, record_failure, force_status}
use simple_lcp.Breaker.Effects.{config-force_status, entry-force_status}
use simple_lcp.Breaker.Ladder.{Failure, peek-record_failure}

module _ (T : HealthTable) where
  check_all : Breaker T → Key → List Now → Breaker T
  check_all b k [] = b
  check_all b k (n ∷ ns) = check_all (is_available T b k n).1 k ns

  pub killed : Breaker T → Key → Now → Breaker T
  killed b k n = (force_status T b k "kill" n).1

  peek-killed :
      (b : Breaker T) (k : Key) (n : Now)
      → peek T (killed b k n) k
        ≡ record (peek T b k) { status = dead; tripped_until = none; manual_override = some dead }
  unfolding peek killed forced
  peek-killed b k n = ground (arith, entry-force_status T b k k "kill" n, key_eq.beq_iff k k)

  no_cooldown_refuses :
      (b : Breaker T) (k : Key) (n : Now)
      → k.provider ≢ ""
      → (peek T b k).status ≡ dead
      → (peek T b k).tripped_until ≡ none
      → is_available T b k n ≡ (false, b)
  unfolding is_available
  no_cooldown_refuses b k n named d trip = ground (arith, string_eq.beq_iff k.provider "")

  dead_stays :
      (b : Breaker T) (k : Key) (ns : List Now)
      → k.provider ≢ ""
      → (peek T b k).status ≡ dead
      → (peek T b k).tripped_until ≡ none
      → check_all b k ns ≡ b
  unfolding check_all
  dead_stays b k [] named d trip = refl
  dead_stays b k (n ∷ ns) named d trip =
      rw (no_cooldown_refuses b k n named d trip) (dead_stays b k ns named d trip)

  -- However many checks follow a manual kill and whenever they are made, the provider stays dead
  -- and the next check refuses it.
  kill_holds_under_checks :
      (b : Breaker T) (k : Key) (n later : Now) (ns : List Now)
      → k.provider ≢ ""
      → let b' = check_all (killed b k n) k ns in
        ((peek T b' k).status ≡ dead) × (is_available T b' k later ≡ (false, b'))
  kill_holds_under_checks b k n later ns named =
      let c = killed b k n in
      let d : (peek T c k).status ≡ dead = rw (peek-killed b k n) in
      let t : (peek T c k).tripped_until ≡ none = rw (peek-killed b k n) in
      rw (dead_stays c k ns named d t) (d, no_cooldown_refuses c k later named d t)

  config-killed : (b : Breaker T) (k : Key) (n : Now) → (killed b k n).config ≡ b.config
  unfolding killed
  config-killed b k n = config-force_status T b k "kill" n

  expired_allows :
      (b : Breaker T) (k : Key) (t : ℕ) (n : Now)
      → k.provider ≢ ""
      → (peek T b k).status ≢ healthy
      → (peek T b k).tripped_until ≡ some t
      → t ≤ n.time
      → (is_available T b k n).0 ≡ true
  unfolding is_available
  expired_allows b k t n named sick trip late = ground (arith, string_eq.beq_iff k.provider "")

  failed_trips :
      (b : Breaker T) (k : Key) (n : Now) (f : Failure)
      → b.config.failures_dead
        ≤ (peek T b k).consecutive_failures + error_weight (or_empty f.error_type)
      → let b' = record_failure T (killed b k n) k f.error_type f.error_reason f.at in
        ((peek T b' k).status ≡ dead)
        × ((peek T b' k).tripped_until ≡ some (f.at.time + b.config.dead_cooldown_seconds))
  unfolding failed
  failed_trips b k n f many =
      ground
        (arith, peek-record_failure T (killed b k n) k f, config-killed b k n, peek-killed b k n)

  -- A manual kill does not outlast a failure that is recorded after it: if the failure's weight
  -- brings the count to the dead threshold, the cooldown set then lets a check of the key, whose
  -- provider is not empty, through once it has passed.
  pub kill_lost_by_failure :
      (b : Breaker T) (k : Key) (n later : Now) (f : Failure)
      → k.provider ≢ ""
      → b.config.failures_dead
        ≤ (peek T b k).consecutive_failures + error_weight (or_empty f.error_type)
      → f.at.time + b.config.dead_cooldown_seconds ≤ later.time
      → let b' = record_failure T (killed b k n) k f.error_type f.error_reason f.at in
        (is_available T b' k later).0 ≡ true
  kill_lost_by_failure b k n later f named many late =
      let b' = record_failure T (killed b k n) k f.error_type f.error_reason f.at in
      let (is_dead, until) = failed_trips b k n f many in
      expired_allows b' k _ later named (λ e. cc) until late
