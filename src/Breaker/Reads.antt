-- ===== src/Breaker/Reads.antt =====
-- The readers of src/api/circuit_breaker.py: they make no entry, and `stats` counts each one once.
use simple_lcp.Prelude.{
  ◌+◌, ◌≡◌, ◌≢◌, ◌⊎◌, refl, true, none, List, [], ◌∷◌, length, count_if, string_eq, arith,
}
use simple_lcp.Breaker.Health.{
  Key, key_eq, healthy, Health, Now, default_health, is_healthy, is_degraded, is_dead,
}
use simple_lcp.Breaker.Table.{HealthTable}
use simple_lcp.Breaker.Ops.{Breaker, peek, status_of, is_available, stats}
use simple_lcp.Breaker.Entries.{level_up}
use simple_lcp.Breaker.Effects.{entry, entry-promote}

count_statuses :
    (m : List (Key × Health))
    → count_if (λ (e : Key × Health). is_healthy e.1.status) m
        + count_if (λ (e : Key × Health). is_degraded e.1.status) m
        + count_if (λ (e : Key × Health). is_dead e.1.status) m
      ≡ length m
unfolding count_if
count_statuses [] = refl
count_statuses ((k, h) ∷ m) = ground (arith, count_statuses m)

module _ (T : HealthTable) where
  -- The three counts of `stats` add up to its total.
  stats_add_up :
      (b : Breaker T)
      → let s = stats T b in s.healthy_entries + s.degraded_entries + s.dead_entries ≡ s.total
  unfolding stats
  stats_add_up b = count_statuses b.health

  -- A key that has no entry, or whose provider is empty, is available, reads healthy, and is not
  -- made an entry by the check.
  pub unknown_key_is_free :
      (b : Breaker T) (k : Key) (n : Now)
      → (k.provider ≡ "") ⊎ (entry T b k ≡ none)
      → (is_available T b k n ≡ (true, b)) × (status_of T b k ≡ healthy)
  unfolding is_available status_of peek default_health
  unknown_key_is_free b k n h = ground (arith, string_eq.beq_iff k.provider "")

  -- No availability check makes an entry, or touches the entry of another key.
  pub check_makes_no_entry :
      (b : Breaker T) (k j : Key) (n : Now)
      → (entry T b j ≡ none) ⊎ (j ≢ k)
      → entry T (is_available T b k n).1 j ≡ entry T b j
  unfolding is_available peek default_health
  check_makes_no_entry b k j n h = ground (
    arith,
    key_eq.beq_iff k j,
    entry-promote T b k j (peek T b k) (level_up (peek T b k).status) n.iso,
  )
