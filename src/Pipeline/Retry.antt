-- ===== src/Pipeline/Retry.antt =====
-- `call_with_retry` of src/api/request_pipeline.py. Times are milliseconds, the multiplier of the
-- backoff is an integer, and a random draw is a number of thousandths.
use simple_lcp.Prelude.{
  ℕ, zero, suc, ◌-◌, ◌*◌, ◌≤◌, ◌<◌, min, max, ◌≡◌, refl, inl, inr, Bool, true, arith, Bool-cases,
  if◌then◌else◌,
}
use Prim.Native.Nat.{◌^◌, ◌/◌}

-- retry_cfg
pub record RetryConfig : Type 0 where
  pub max_attempts : ℕ
  pub backoff_base : ℕ
  pub backoff_multiplier : ℕ
  pub max_backoff : ℕ
  pub jitter : Bool

-- the pause before attempt `k + 2`, where `draw` is 1000 * random.uniform(0.5, 1.5)
unfoldable pub backoff : RetryConfig → ℕ → ℕ → ℕ
backoff cfg k draw =
    let delay = min (cfg.backoff_base * cfg.backoff_multiplier ^ k) cfg.max_backoff in
    if cfg.jitter then delay * draw / 1000 else delay

scaled_le : (d m draw : ℕ) → d ≤ m → draw ≤ 1500 → 1000 * (d * draw / 1000) ≤ 1500 * m
scaled_le d m draw h g =
    let p : d * draw ≤ d * 1500 = grind arith in
    let q : d * 1500 ≤ m * 1500 = grind arith in omega arith

-- No pause is longer than one and a half times the largest backoff.
backoff_bounded :
    (cfg : RetryConfig) (k draw : ℕ)
    → draw ≤ 1500
    → 1000 * backoff cfg k draw ≤ 1500 * cfg.max_backoff
unfolding backoff
backoff_bounded cfg k draw h =
    let delay = min (cfg.backoff_base * cfg.backoff_multiplier ^ k) cfg.max_backoff in
    elim (Bool-cases cfg.jitter) [
      | inl e ↦ rw e (scaled_le delay cfg.max_backoff draw (omega arith) h)
      | inr e ↦ rw e (omega arith)
    ]

module _ {ℓ κ} {W : Type ℓ} {O : Type κ} (retryable : O → Bool) (request : W → O × W) where
  -- The worlds that the attempts start in; `pause k` is what passes between two attempts.
  unfoldable pub attempt_start : (ℕ → W → W) → ℕ → ℕ → W → W
  attempt_start pause k zero w = w
  attempt_start pause k (suc n) w = attempt_start pause (suc k) n (pause k (request w).1)

  -- attempt k + 1, with `rest` more to come
  attempts : (ℕ → W → W) → ℕ → ℕ → W → O × W
  attempts pause k zero w = request w
  attempts pause k (suc rest) w =
      let again = attempts pause (suc k) rest (pause k (request w).1) in
      if retryable (request w).0 then again else request w

  unfoldable pub call_with_retry : RetryConfig → (ℕ → W → W) → W → O × W
  unfolding attempts
  call_with_retry cfg pause w = attempts pause 0 (max 1 cfg.max_attempts - 1) w

  earlier :
      (pause : ℕ → W → W) (k n : ℕ) (w : W)
      → retryable (request w).0 ≡ true
      → ((j : ℕ)
          → j < n
          → retryable (request (attempt_start pause (suc k) j (pause k (request w).1))).0 ≡ true)
      → (j : ℕ) → j < suc n
      → retryable (request (attempt_start pause k j w)).0 ≡ true
  unfolding attempt_start
  earlier pause k n w first rest zero h = first
  earlier pause k n w first rest (suc j) h = rest j (omega arith)

  attempts_stop :
      (pause : ℕ → W → W) (k rest : ℕ) (w : W)
      → (n : ℕ) × (n ≤ rest)
        × (attempts pause k rest w ≡ request (attempt_start pause k n w))
        × ((j : ℕ) → j < n → retryable (request (attempt_start pause k j w)).0 ≡ true)
        × (retryable (attempts pause k rest w).0 ≡ true → n ≡ rest)
  unfolding attempts attempt_start
  attempts_stop pause k zero w = (0, omega arith, refl, λ j h. absurd (omega arith), λ h. refl)
  attempts_stop pause k (suc rest) w = elim (Bool-cases (retryable (request w).0)) [
    | inl again ↦
        let (n, le, eq, before, last) = attempts_stop pause (suc k) rest (pause k (request w).1) in
        rw again
          (suc n, omega arith, eq, earlier pause k n w again before, λ h. omega (arith, last h))
    | inr done ↦ rw done (0, omega arith, refl, λ j h. absurd (omega arith), λ h. cc)
  ]

  -- The call always ends with the outcome of one attempt, at most `max_attempts` (and at least one)
  -- are made, each made before the last failed with a retryable error, and a retryable error comes
  -- back only from the last attempt that is allowed.
  pub retry_stops_at_first_decision :
      (cfg : RetryConfig) (pause : ℕ → W → W) (w : W)
      → (n : ℕ) × (n < max 1 cfg.max_attempts)
        × (call_with_retry cfg pause w ≡ request (attempt_start pause 0 n w))
        × ((j : ℕ) → j < n → retryable (request (attempt_start pause 0 j w)).0 ≡ true)
        × (retryable (call_with_retry cfg pause w).0 ≡ true → suc n ≡ max 1 cfg.max_attempts)
  unfolding call_with_retry
  retry_stops_at_first_decision cfg pause w =
      let (n, le, eq, before, last) = attempts_stop pause 0 (max 1 cfg.max_attempts - 1) w in
      (n, omega arith, eq, before, λ h. omega (arith, last h))
