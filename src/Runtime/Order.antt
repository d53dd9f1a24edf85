-- ===== src/Runtime/Order.antt =====
-- The order in which `Runtime.start` of src/api/runtime.py sets components up, and who is left out.
use simple_lcp.Prelude.{
  ◌+◌, ◌≤◌, ◌<◌, String, ◌≡◌, refl, sym, ap, ◌∙◌, subst, true, false, Option, List, [], ◌∷◌, ◌++◌,
  arith, length, count_if, count_if-append, Bool, All, Bool-cases, inl, inr, if◌then◌else◌,
}
use simple_lcp.Runtime.Boot.{
  Component, root_keys, satisfied, with_keys, Boot, setup_one, admit, sweep,
}

-- The keys that are ready once the components have been set up.
unfoldable pub keys_after : List String → List Component → List String
keys_after ready [] = ready
keys_after ready (c ∷ cs) = keys_after (with_keys ready c) cs

-- Each component's requirements are ready when its turn comes.
abbrev pub InOrder : List String → List Component → Type 0
InOrder ready [] = Unit
InOrder ready (c ∷ cs) = (satisfied ready c ≡ true) × InOrder (with_keys ready c) cs

keys_after-snoc :
    (ready : List String) (cs : List Component) (c : Component)
    → keys_after ready (cs ++ c ∷ []) ≡ with_keys (keys_after ready cs) c
unfolding keys_after
keys_after-snoc ready [] c = refl
keys_after-snoc ready (d ∷ cs) c = keys_after-snoc (with_keys ready d) cs c

snoc-InOrder :
    (ready : List String) (cs : List Component) (c : Component)
    → InOrder ready cs
    → satisfied (keys_after ready cs) c ≡ true
    → InOrder ready (cs ++ c ∷ [])
unfolding keys_after
snoc-InOrder ready [] c h s = (s, tt)
snoc-InOrder ready (d ∷ cs) c h s = (h.0, snoc-InOrder (with_keys ready d) cs c h.1 s)

module _ {W D : Type 0} (setup : Component → W → Option (Option D) × W) where
  abbrev B : Type 0
  B = Boot setup

  abbrev pub Fair : B → Type 0
  Fair b = (b.ready ≡ keys_after root_keys b.order) × InOrder root_keys b.order

  setup_one-keeps :
      (c : Component) (b : B)
      → ((setup_one setup c b).ready ≡ b.ready) × ((setup_one setup c b).order ≡ b.order)
  unfolding setup_one
  setup_one-keeps c b = ground arith

  admit-Fair :
      (c : Component) (b : B) → satisfied b.ready c ≡ true → Fair b → Fair (admit setup c b)
  unfolding admit
  admit-Fair c b s f =
      let (r, o) = setup_one-keeps c b in
      (
        rw (r, o) (ap (λ k. with_keys k c) f.0 ∙ sym (keys_after-snoc root_keys b.order c)),
        subst (λ cs. InOrder root_keys (cs ++ c ∷ [])) (sym o)
            (snoc-InOrder root_keys b.order c f.1 (subst (λ k. satisfied k c ≡ true) f.0 s)),
      )

  admit-progressed : (c : Component) (b : B) → (admit setup c b).progressed ≡ true
  unfolding admit
  admit-progressed c b = refl

  count-admit :
      (p : Component → Bool) (c : Component) (b : B)
      → count_if p (admit setup c b).order ≡ count_if p b.order + count_if p (c ∷ [])
  unfolding admit
  count-admit p c b =
      let (r, o) = setup_one-keeps c b in
      count_if-append p (setup_one setup c b).order (c ∷ [])
      ∙ ap (λ cs. count_if p cs + count_if p (c ∷ [])) o

  pub sweep-Fair : (cs : List Component) (b : B) → Fair b → Fair (sweep setup cs b).1
  unfolding sweep
  sweep-Fair [] b f = f
  sweep-Fair (c ∷ cs) b f = elim (Bool-cases (satisfied b.ready c)) [
    | inl e ↦ rw e (sweep-Fair cs (admit setup c b) (admit-Fair c b e f))
    | inr e ↦ rw e (sweep-Fair cs b f)
  ]

  sweep-progressed :
      (cs : List Component) (b : B) → b.progressed ≡ true → (sweep setup cs b).1.progressed ≡ true
  unfolding sweep
  sweep-progressed [] b h = h
  sweep-progressed (c ∷ cs) b h = elim (Bool-cases (satisfied b.ready c)) [
    | inl e ↦ rw e (sweep-progressed cs (admit setup c b) (admit-progressed c b))
    | inr e ↦ rw e (sweep-progressed cs b h)
  ]

  -- A sweep neither loses a component nor makes one up.
  pub sweep-count :
      (p : Component → Bool) (cs : List Component) (b : B)
      → let (left, b') = sweep setup cs b in
        count_if p b'.order + count_if p left ≡ count_if p b.order + count_if p cs
  unfolding sweep
  sweep-count p [] b = refl
  sweep-count p (c ∷ cs) b = elim (Bool-cases (satisfied b.ready c)) [
    | inl e ↦ rw e (
        omega (
          arith,
          sweep-count p cs (admit setup c b),
          count-admit p c b,
          count_if-append p (c ∷ []) cs,
        ))
    | inr e ↦ rw e (
        omega (
          arith,
          sweep-count p cs b,
          count_if-append p (c ∷ []) cs,
          count_if-append p (c ∷ []) (sweep setup cs b).0,
        ))
  ]

  length-sweep : (cs : List Component) (b : B) → length (sweep setup cs b).0 ≤ length cs
  unfolding sweep
  length-sweep [] b = omega arith
  length-sweep (c ∷ cs) b = elim (Bool-cases (satisfied b.ready c)) [
    | inl e ↦ rw e (omega (arith, length-sweep cs (admit setup c b)))
    | inr e ↦ rw e (omega (arith, length-sweep cs b))
  ]

  -- A sweep that makes progress leaves fewer components.
  pub sweep-shrinks :
      (cs : List Component) (b : B)
      → b.progressed ≡ false
      → (sweep setup cs b).1.progressed ≡ true
      → length (sweep setup cs b).0 < length cs
  unfolding sweep
  sweep-shrinks [] b h g = cc
  sweep-shrinks (c ∷ cs) b h g = elim (Bool-cases (satisfied b.ready c)) [
    | inl e ↦ rw e (omega (arith, length-sweep cs (admit setup c b)))
    | inr e ↦
        let g' : (sweep setup cs b).1.progressed ≡ true =
          subst (λ ok. (sweep setup cs (if ok then admit setup c b else b)).1.progressed ≡ true) e
            g in
        rw e (omega (arith, sweep-shrinks cs b h g'))
  ]

  abbrev pub IsStuck : List String → List Component → Type 0
  IsStuck ready cs = All (λ c. satisfied ready c ≡ false) cs

  -- A sweep that makes none has found every component stuck.
  pub sweep-IsStuck :
      (cs : List Component) (b : B)
      → (sweep setup cs b).1.progressed ≡ false
      → IsStuck b.ready (sweep setup cs b).0 × ((sweep setup cs b).1.ready ≡ b.ready)
  unfolding sweep
  sweep-IsStuck [] b g = (tt, refl)
  sweep-IsStuck (c ∷ cs) b g = elim (Bool-cases (satisfied b.ready c)) [
    | inl e ↦
        let g' : (sweep setup cs (admit setup c b)).1.progressed ≡ false =
          subst (λ ok. (sweep setup cs (if ok then admit setup c b else b)).1.progressed ≡ false) e
            g in
        absurd (cc (g', sweep-progressed cs (admit setup c b) (admit-progressed c b)))
    | inr e ↦
        let g' : (sweep setup cs b).1.progressed ≡ false =
          subst (λ ok. (sweep setup cs (if ok then admit setup c b else b)).1.progressed ≡ false) e
            g in
        let (stuck, same) = sweep-IsStuck cs b g' in rw e ((e, stuck), same)
  ]
