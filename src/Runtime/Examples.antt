-- ===== src/Runtime/Examples.antt =====
-- A start of the runtime (src/api/runtime.py) with one component that requires another, and one
-- whose requirement nobody publishes. The world counts the setups.
use simple_lcp.Prelude.{
  ℕ, suc, ◌+◌, ◌≡◌, refl, true, false, Option, none, some, List, [], ◌∷◌, count_if, Bool, arith,
  string_eq, contains, lookup, insert, any,
}
use simple_lcp.Runtime.Boot.{Component, root_keys, Boot, start}
use simple_lcp.Runtime.Order.{keys_after, InOrder, IsStuck}
use simple_lcp.Runtime.Shutdown.{AllDiffer, teardown_order}
use simple_lcp.Runtime.Registry.{Registry, is_taken, claim, register, name_takes_key_over}
use simple_lcp.Runtime.Start.{start-InOrder}

abbrev ready_at_once : Component → ℕ → Option (Option ℕ) × ℕ
ready_at_once c w = (some (some w), suc w)

abbrev components : List Component
components =
    record { name = "alert_manager"; requires = "breaker" ∷ []; provides = [] }
    ∷ record { name = "breaker"; requires = "engine" ∷ []; provides = [] }
    ∷ record { name = "lost"; requires = "nobody" ∷ []; provides = [] }
    ∷ []

start-InOrder_example :
    let (left, b) = start ready_at_once components 0 in
    InOrder root_keys b.order
    × IsStuck ready_at_once (keys_after root_keys b.order) left
    × ((p : Component → Bool) → count_if p b.order + count_if p left ≡ count_if p components)
start-InOrder_example = start-InOrder ready_at_once components 0

abbrev closes : ℕ → ℕ → ℕ
closes d w = d + w

abbrev running : Boot ready_at_once
running = record {
  world = 7;
  ready = [];
  order =
      record { name = "breaker"; requires = []; provides = [] }
      ∷ record { name = "alerts"; requires = []; provides = [] }
      ∷ [];
  disposers = ("breaker", some 1) ∷ ("alerts", none) ∷ [];
  active = ("breaker", true) ∷ ("alerts", true) ∷ [];
  progressed = false;
}

running-AllDiffer : AllDiffer ready_at_once closes (teardown_order ready_at_once closes running)
unfolding teardown_order
running-AllDiffer = ((λ e. ground (arith, string_eq.beq_iff "breaker" "alerts"), tt), (tt, tt))

abbrev old_one : Component
old_one = record { name = "a"; requires = []; provides = "cache" ∷ [] }

abbrev registry : Registry
registry = record { components = ("a", old_one) ∷ []; owners = ("a", "a") ∷ ("cache", "a") ∷ [] }

abbrev settings : Component
settings = record { name = "settings"; requires = []; provides = [] }

abbrev with_settings : Registry
with_settings = record {
  components = ("a", old_one) ∷ ("settings", settings) ∷ [];
  owners = ("a", "a") ∷ ("cache", "a") ∷ ("settings", "settings") ∷ [];
}

settings_registered : register registry settings ≡ some with_settings
unfolding register lookup contains insert any claim root_keys
settings_registered = refl

cache_taken : is_taken registry "cache" ≡ true
unfolding is_taken contains lookup root_keys
cache_taken = refl

abbrev cache : Component
cache = record { name = "cache"; requires = []; provides = [] }

abbrev empty : Registry
empty = record { components = []; owners = [] }

abbrev keeper : Component
keeper = record { name = "a"; requires = []; provides = "cache" ∷ [] }

abbrev with_keeper : Registry
with_keeper = record { components = ("a", keeper) ∷ []; owners = ("a", "a") ∷ ("cache", "a") ∷ [] }

keeper_registered : register empty keeper ≡ some with_keeper
unfolding register lookup contains insert any claim root_keys is_taken
keeper_registered = refl

keeper_provides : contains "cache" keeper.provides ≡ true
unfolding contains
keeper_provides = refl

cache_unnamed : lookup "cache" with_keeper.components ≡ none
unfolding lookup
cache_unnamed = refl

name_takes_key_over_example :
    (lookup "cache" with_keeper.owners ≡ some "a")
    × ((r : Registry) × (register with_keeper cache ≡ some r)
        × (lookup "cache" r.owners ≡ some "cache"))
name_takes_key_over_example =
    name_takes_key_over empty with_keeper keeper cache keeper_registered keeper_provides
      cache_unnamed refl
