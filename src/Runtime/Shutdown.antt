-- ===== src/Runtime/Shutdown.antt =====
-- `Runtime.shutdown` of src/api/runtime.py. What a disposer does is a parameter that acts on the
-- world; one that raises is logged, so it too is a change of the world.
use mathlib.Core.List.{reverse}
use simple_lcp.Prelude.{
  String, ◌≡◌, ◌≢◌, refl, ◌∙◌, Bool, true, false, Option, none, some, List, [], ◌∷◌, string_eq,
  arith, map, lookup, insert, lookup-insert, All,
}
use simple_lcp.Runtime.Boot.{Component, Boot}

module _ {W D : Type 0} (setup : Component → W → Option (Option D) × W) (dispose : D → W → W) where
  -- disposer(), if there is one
  unfoldable undo : Option (Option D) → W → W
  undo (some (some d)) w = dispose d w
  undo _ w = w

  unfoldable dispose_one : String → Boot setup → Boot setup
  dispose_one n b = record b {
    world = undo (lookup n b.disposers) b.world;
    disposers = insert n none b.disposers;
    active = insert n false b.active;
  }

  unfoldable dispose_all : List String → Boot setup → Boot setup
  dispose_all [] b = b
  dispose_all (n ∷ ns) b = dispose_all ns (dispose_one n b)

  unfoldable all_inactive : List (String × Bool) → List (String × Bool)
  all_inactive [] = []
  all_inactive ((n, a) ∷ m) = (n, false) ∷ all_inactive m

  -- the names in the reverse order of their setup
  unfoldable pub teardown_order : Boot setup → List String
  teardown_order b = reverse (map (λ (c : Component). c.name) b.order)

  unfoldable shutdown : Boot setup → Boot setup
  shutdown b =
      let b' = dispose_all (teardown_order b) b in
      record b' { order = []; disposers = []; active = all_inactive b'.active }

  -- The disposers that `f` gives for the names, run in turn.
  unfoldable undo_all : (String → Option (Option D)) → List String → W → W
  undo_all f [] w = w
  undo_all f (n ∷ ns) w = undo_all f ns (undo (f n) w)

  abbrev pub AllDiffer : List String → Type 0
  AllDiffer [] = Unit
  AllDiffer (n ∷ ns) = All (λ k. k ≢ n) ns × AllDiffer ns

  undo_all-cong :
      (f g : String → Option (Option D)) (ns : List String) (w : W)
      → All (λ k. f k ≡ g k) ns
      → undo_all f ns w ≡ undo_all g ns w
  unfolding undo_all
  undo_all-cong f g [] w h = refl
  undo_all-cong f g (n ∷ ns) w h = rw h.0 (undo_all-cong f g ns (undo (g n) w) h.1)

  lookup-others :
      (n : String) (ns : List String) (m : List (String × Option D))
      → All (λ k. k ≢ n) ns
      → All (λ k. lookup k (insert n none m) ≡ lookup k m) ns
  lookup-others n [] m h = tt
  lookup-others n (k ∷ ns) m h = (
    ground (arith, h.0, lookup-insert n k none m, string_eq.beq_iff n k),
    lookup-others n ns m h.1,
  )

  world-dispose_all :
      (ns : List String) (b : Boot setup)
      → AllDiffer ns
      → (dispose_all ns b).world ≡ undo_all (λ n. lookup n b.disposers) ns b.world
  unfolding dispose_all dispose_one undo_all
  world-dispose_all [] b h = refl
  world-dispose_all (n ∷ ns) b h =
      world-dispose_all ns (dispose_one n b) h.1
      ∙ undo_all-cong (λ k. lookup k (insert n none b.disposers)) (λ k. lookup k b.disposers) ns
          (undo (lookup n b.disposers) b.world) (lookup-others n ns b.disposers h.0)

  lookup-all_inactive :
      (k : String) (m : List (String × Bool)) → lookup k (all_inactive m) ≢ some true
  unfolding all_inactive lookup
  lookup-all_inactive k [] = λ e. cc
  lookup-all_inactive k ((n, a) ∷ m) = ground (arith, lookup-all_inactive k m)

  -- If no two components share a name, a shutdown runs the disposers that the setups left, each
  -- once, in the reverse order of the setups; and no component is active after it.
  shutdown_reverses :
      (b : Boot setup)
      → AllDiffer (teardown_order b)
      → ((shutdown b).world ≡ undo_all (λ n. lookup n b.disposers) (teardown_order b) b.world)
        × ((k : String) → lookup k (shutdown b).active ≢ some true)
  unfolding shutdown
  shutdown_reverses b h = (
    world-dispose_all (teardown_order b) b h,
    λ k. lookup-all_inactive k (dispose_all (teardown_order b) b).active,
  )
