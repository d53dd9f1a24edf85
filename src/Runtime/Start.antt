-- ===== src/Runtime/Start.antt =====
-- `Runtime.start` of src/api/runtime.py as a whole.
use simple_lcp.Prelude.{
  ℕ, zero, suc, ◌+◌, ◌≤◌, ◌≡◌, refl, sym, ap, subst, true, false, Option, List, [], ◌∷◌, arith,
  length, count_if, ◌∙◌, Bool, insert, string_eq, Bool-cases, inl, inr,
}
use simple_lcp.Runtime.Boot.{Component, root_keys, Boot, sweep, boot, mark_inactive, start}
use simple_lcp.Runtime.Order.{
  keys_after, InOrder, Fair, IsStuck, sweep-Fair, sweep-count, sweep-shrinks, sweep-IsStuck,
}

module _ {W D : Type 0} (setup : Component → W → Option (Option D) × W) where
  -- What the loop leaves: a fair order, all others stuck, and as many of each kind as there were.
  abbrev Settled : ((Component → Bool) → ℕ) → List Component × Boot setup → Type 0
  Settled n (left, b) =
      Fair setup b
      × IsStuck setup b.ready left
      × ((p : Component → Bool) → count_if p b.order + count_if p left ≡ n p)

  none_pending :
      (pending : List Component) (b : Boot setup)
      → length pending ≤ 0
      → Fair setup b
      → Settled (λ p. count_if p b.order + count_if p pending) (pending, b)
  none_pending [] b h f = (f, tt, λ p. refl)
  none_pending (c ∷ cs) b h f = absurd (omega arith)

  boot-Settled :
      (fuel : ℕ) (pending : List Component) (b : Boot setup)
      → length pending ≤ fuel
      → Fair setup b
      → Settled (λ p. count_if p b.order + count_if p pending) (boot setup fuel pending b)
  unfolding boot
  boot-Settled zero pending b h f = none_pending pending b h f
  boot-Settled (suc fuel) [] b h f = (f, tt, λ p. refl)
  boot-Settled (suc fuel) (c ∷ cs) b h f =
      let b0 : Boot setup = record b { progressed = false } in
      let (left, b') = sweep setup (c ∷ cs) b0 in
      let count = λ (p : Component → Bool). sweep-count setup p (c ∷ cs) b0 in
      let fair = sweep-Fair setup (c ∷ cs) b0 f in
      elim (Bool-cases b'.progressed) [
        | inl e ↦
            let fewer = sweep-shrinks setup (c ∷ cs) b0 refl e in
            let (settled, stuck, same) = boot-Settled fuel left b' (omega arith) fair in
            rw e (settled, stuck, λ p. same p ∙ count p)
        | inr e ↦
            let (stuck, same) = sweep-IsStuck setup (c ∷ cs) b0 e in
            rw e (fair, subst (λ r. IsStuck setup r left) (sym same) stuck, count)
      ]

  mark_inactive-keeps :
      (cs : List Component) (b : Boot setup)
      → ((mark_inactive setup cs b).ready ≡ b.ready) × ((mark_inactive setup cs b).order ≡ b.order)
  unfolding mark_inactive
  mark_inactive-keeps [] b = (refl, refl)
  mark_inactive-keeps (c ∷ cs) b =
      mark_inactive-keeps cs (record b { active = insert c.name false b.active })

  -- Every component is set up after all that it requires; those left out each miss a key that no
  -- root, and no component that was set up, publishes; and those set up and those left out are
  -- together the given components, each as often as it is given: any test of a component holds of
  -- as many of them.
  pub start-InOrder :
      (components : List Component) (w : W)
      → let (left, b) = start setup components w in
        InOrder root_keys b.order
        × IsStuck setup (keys_after root_keys b.order) left
        × ((p : Component → Bool) → count_if p b.order + count_if p left ≡ count_if p components)
  unfolding start keys_after count_if
  start-InOrder components w =
      let b0 : Boot setup = record {
        world = w;
        ready = root_keys;
        order = [];
        disposers = [];
        active = [];
        progressed = true;
      } in
      let (left, b) = boot setup (length components) components b0 in
      let ((ready, order), stuck, count) =
        boot-Settled (length components) components b0 (omega arith) (refl, tt) in
      let (r, o) = mark_inactive-keeps left b in
      (
        subst (InOrder root_keys) (sym o) order,
        subst (λ cs. IsStuck setup (keys_after root_keys cs) left) (sym o)
            (subst (λ k. IsStuck setup k left) ready stuck),
        λ p. omega (arith, ap (λ cs. count_if p cs) o, count p),
      )
