-- ===== src/Breaker/Ladder.antt =====
-- The ladder healthy → degraded → dead of src/api/circuit_breaker.py and the half-open way back.
use simple_lcp.Prelude.{
  ℕ, ◌+◌, ◌≤◌, ◌<◌, String, ◌≡◌, ◌≢◌, true, false, Option, none, some, List, [], ◌∷◌, string_eq,
  leb, arith, if◌then◌else◌,
}
use simple_lcp.Breaker.Health.{
  Key, key_eq, Status, healthy, degraded, dead, Health, Thresholds, Now, error_weight,
}
use simple_lcp.Breaker.Table.{HealthTable}
use simple_lcp.Breaker.Entries.{or_empty, healed, failed}
use simple_lcp.Breaker.Ops.{Breaker, peek, is_available, record_success, record_failure}
use simple_lcp.Breaker.Effects.{
  entry, config-record_failure, entry-record_failure, entry-record_success, entry-promote,
}

-- The status that a failure count stands for.
unfoldable pub grade : Thresholds → ℕ → Status
grade cfg n =
    if leb cfg.failures_dead n
    then dead
    else if leb cfg.failures_degraded n
    then degraded
    else healthy

pub record Failure : Type 0 where
  pub error_type : Option String
  pub error_reason : Option String
  pub at : Now

unfoldable pub total_weight : List Failure → ℕ
total_weight [] = 0
total_weight (f ∷ fs) = error_weight (or_empty f.error_type) + total_weight fs

failed-grade :
    (cfg : Thresholds) (h : Health) (f : Failure)
    → h.status ≡ grade cfg h.consecutive_failures
    → let h' = failed cfg h f.error_type f.error_reason f.at in
      (h'.consecutive_failures ≡ h.consecutive_failures + error_weight (or_empty f.error_type))
      × (h'.status ≡ grade cfg h'.consecutive_failures)
unfolding failed grade
failed-grade cfg h f e = ground arith

module _ (T : HealthTable) where
  pub record_failures : Breaker T → Key → List Failure → Breaker T
  record_failures b k [] = b
  record_failures b k (f ∷ fs) =
      record_failures (record_failure T b k f.error_type f.error_reason f.at) k fs

  pub peek-record_failure :
      (b : Breaker T) (k : Key) (f : Failure)
      → peek T (record_failure T b k f.error_type f.error_reason f.at) k
        ≡ failed b.config (peek T b k) f.error_type f.error_reason f.at
  unfolding peek
  peek-record_failure b k f =
      ground
        (arith, entry-record_failure T b k k f.error_type f.error_reason f.at, key_eq.beq_iff k k)

  record_failures-grade :
      (b : Breaker T) (k : Key) (fs : List Failure)
      → (peek T b k).status ≡ grade b.config (peek T b k).consecutive_failures
      → ((peek T (record_failures b k fs) k).consecutive_failures
          ≡ (peek T b k).consecutive_failures + total_weight fs)
        × ((peek T (record_failures b k fs) k).status
            ≡ grade b.config ((peek T b k).consecutive_failures + total_weight fs))
  unfolding record_failures total_weight
  record_failures-grade b k [] e = (omega arith, ground (arith, e))
  record_failures-grade b k (f ∷ fs) e =
      let b' = record_failure T b k f.error_type f.error_reason f.at in
      ground (
        arith,
        failed-grade b.config (peek T b k) f e,
        peek-record_failure b k f,
        config-record_failure T b k f.error_type f.error_reason f.at,
        record_failures-grade b' k fs,
      )

  -- A key that reads healthy and has a failure count of 0, under thresholds that are not 0, has after
  -- any failures in a row the status that their total weight stands for, and that weight as its
  -- failure count.
  pub status_after_failures :
      (b : Breaker T) (k : Key) (fs : List Failure)
      → 0 < b.config.failures_degraded
      → 0 < b.config.failures_dead
      → (peek T b k).status ≡ healthy
      → (peek T b k).consecutive_failures ≡ 0
      → ((peek T (record_failures b k fs) k).status ≡ grade b.config (total_weight fs))
        × ((peek T (record_failures b k fs) k).consecutive_failures ≡ total_weight fs)
  unfolding grade
  status_after_failures b k fs p q e z = ground (arith, record_failures-grade b k fs)

  -- A dead provider whose cooldown has not run out is refused, and the check changes nothing.
  cooldown_refuses :
      (b : Breaker T) (k : Key) (t : ℕ) (n : Now)
      → k.provider ≢ ""
      → (peek T b k).status ≢ healthy
      → (peek T b k).tripped_until ≡ some t
      → n.time < t
      → is_available T b k n ≡ (false, b)
  unfolding is_available
  cooldown_refuses b k t n named sick trip early = ground (arith, string_eq.beq_iff k.provider "")

  -- Once the cooldown of a dead provider has run out, the check lets a probe through and leaves the
  -- provider degraded with no cooldown, so that later checks pass at any time and change nothing.
  expiry_opens_probe :
      (b : Breaker T) (k : Key) (h : Health) (t : ℕ) (n later : Now)
      → k.provider ≢ ""
      → entry T b k ≡ some h
      → h.status ≡ dead
      → h.tripped_until ≡ some t
      → t ≤ n.time
      → let b' = (is_available T b k n).1 in
        ((is_available T b k n).0 ≡ true)
        × (entry T b' k ≡ some (record h { status = degraded; tripped_until = none }))
        × (is_available T b' k later ≡ (true, b'))
  unfolding is_available peek
  expiry_opens_probe b k h t n later named e d trip late = ground (
    arith,
    string_eq.beq_iff k.provider "",
    key_eq.beq_iff k k,
    entry-promote T b k k h degraded n.iso,
  )

  -- A failure of a provider whose failure count has already reached the dead threshold, such as a
  -- probe of a promoted one, makes it dead until a full cooldown has passed, whatever the failure.
  failed_probe_trips_again :
      (b : Breaker T) (k : Key) (f : Failure) (later : Now)
      → k.provider ≢ ""
      → b.config.failures_dead ≤ (peek T b k).consecutive_failures
      → later.time < f.at.time + b.config.dead_cooldown_seconds
      → let b' = record_failure T b k f.error_type f.error_reason f.at in
        ((peek T b' k).status ≡ dead) × (is_available T b' k later ≡ (false, b'))
  unfolding failed
  failed_probe_trips_again b k f later named many early =
      let b' = record_failure T b k f.error_type f.error_reason f.at in
      let is_dead : (peek T b' k).status ≡ dead = ground (arith, peek-record_failure b k f) in
      let until : (peek T b' k).tripped_until ≡ some (f.at.time + b.config.dead_cooldown_seconds) =
        ground (arith, peek-record_failure b k f) in
      (is_dead, cooldown_refuses b' k _ later named (λ e. cc) until early)

  -- A success leaves the provider healthy, with no failures and no cooldown, and every later check
  -- lets its requests through; the entries of the other keys stay as they were.
  success_recovers :
      (b : Breaker T) (k j : Key) (n later : Now)
      → let b' = record_success T b k n in
        ((peek T b' k).status ≡ healthy)
        × ((peek T b' k).consecutive_failures ≡ 0)
        × ((peek T b' k).tripped_until ≡ none)
        × (is_available T b' k later ≡ (true, b'))
        × (j ≢ k → entry T b' j ≡ entry T b j)
  unfolding is_available peek healed
  success_recovers b k j n later = ground (
    arith,
    entry-record_success T b k k n,
    entry-record_success T b k j n,
    key_eq.beq_iff k k,
    key_eq.beq_iff k j,
  )
