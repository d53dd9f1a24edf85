-- ===== src/Router/Targets.antt =====
-- The target steps of a built chain of src/api/router.py, and the order of its sort keys.
use simple_lcp.Prelude.{
  ℕ, String, ◌≡◌, refl, sym, ap, subst, inl, inr, Bool, true, false, not, ◌&&◌, List, [], ◌∷◌, ◌==◌,
  string_eq, nat_eq, select, any, contains, Bool-cases, arith, IsIn, select-IsIn, if◌then◌else◌,
}
use simple_lcp.Chain.Forward.{Step}
use simple_lcp.Router.Names.{logical_model_name, provider_model_name}
use simple_lcp.Router.Scores.{Floats, Facts}
use simple_lcp.Router.Build.{as_target, target_steps, key_lt, is_listed}

pub is_listed-IsIn :
    (c : Step) (ts : List Step)
    → is_listed c ts ≡ true
    → (t : Step) × IsIn t ts × (t.provider ≡ c.provider) × (t.model ≡ c.model)
unfolding is_listed any
is_listed-IsIn c [] h = cc
is_listed-IsIn c (t ∷ ts) h = elim (Bool-cases (t.provider == c.provider && t.model == c.model)) [
  | inl e ↦ (
    t,
    inl refl,
    ground (arith, string_eq.beq_iff t.provider c.provider),
    ground (arith, string_eq.beq_iff t.model c.model),
  )
  | inr e ↦ let (u, i, p, m) = is_listed-IsIn c ts (ground arith) in (u, inr i, p, m)
]

pub key_lt_asymm :
    (p q : Bool) (h i c d : ℕ) → key_lt p q h i c d ≡ true → key_lt q p i h d c ≡ false
unfolding key_lt
key_lt_asymm p q h i c d e = ground arith

pub key_lt_irrefl : (p : Bool) (h c : ℕ) → key_lt p p h h c c ≡ false
unfolding key_lt
key_lt_irrefl p h c = ground arith

pub key_lt_trans :
    (p q r : Bool) (h i j c d e : ℕ)
    → key_lt q p i h d c ≡ false
    → key_lt r q j i e d ≡ false
    → key_lt r p j h e c ≡ false
unfolding key_lt
key_lt_trans p q r h i j c d e f g = ground arith

pub gated-IsIn :
    (t : Bool) (p : Step → Bool) (s : Step) (xs : List Step)
    → IsIn s (if t then xs else select p xs)
    → IsIn s xs
gated-IsIn true p s xs h = h
gated-IsIn false p s xs h = (select-IsIn p s xs h).0

module _ (N : Floats) (facts : Facts N) (target : String) where
  -- The chain step `c` is of the target model.
  abbrev pub Uses : Step → Type 0
  Uses c = logical_model_name facts.registry c.model ≡ target

  pub target_steps-IsIn :
      (s : Step) (seen : List String) (chain : List Step)
      → IsIn s (target_steps N facts target seen chain)
      → (c : Step) × IsIn c chain × Uses c × (s ≡ as_target N facts target c)
  unfolding target_steps
  target_steps-IsIn s seen [] h = absurd h
  target_steps-IsIn s seen (c ∷ chain) h =
      let t =
        not (contains c.provider seen) && logical_model_name facts.registry c.model == target in
      let later = target_steps N facts target (c.provider ∷ seen) chain in
      let rest = target_steps N facts target seen chain in
      elim (Bool-cases t) [
        | inl e ↦
            elim (subst (λ b. IsIn s (if b then as_target N facts target c ∷ later else rest)) e
              h) [
                | inl same ↦ (
                  c,
                  inl refl,
                  ground
                      (arith, string_eq.beq_iff (logical_model_name facts.registry c.model) target),
                  same,
                )
                | inr i ↦
                    let (d, j, u, q) = target_steps-IsIn s (c.provider ∷ seen) chain i in
                    (d, inr j, u, q)
              ]
        | inr e ↦
            let (d, j, u, q) =
              target_steps-IsIn s seen chain (
                subst (λ b. IsIn s (if b then as_target N facts target c ∷ later else rest)) e h) in
            (d, inr j, u, q)
      ]

  abbrev opens : List String → Step → Bool
  opens seen d =
      not (contains d.provider seen) && logical_model_name facts.registry d.model == target

  differs : (p q : String) → (p == q) ≡ false → ¬ (p ≡ q)
  differs p q h e = ground (arith, string_eq.beq_iff p q)

  skips :
      (seen : List String) (c d : Step)
      → opens seen d ≡ false
      → c ≡ d
      → Uses c
      → ¬ (contains c.provider seen ≡ false)
  skips seen c d closed same u fresh = ground (
    arith,
    string_eq.beq_iff (logical_model_name facts.registry d.model) target,
    subst (λ x. Uses x) same u,
    subst (λ (x : Step). contains x.provider seen ≡ false) same fresh,
  )

  -- the step of a provider whose chain step is of the target model
  pub target_steps-provider :
      (c : Step) (seen : List String) (chain : List Step)
      → IsIn c chain
      → Uses c
      → contains c.provider seen ≡ false
      → (t : Step) × IsIn t (target_steps N facts target seen chain)
        × (t.provider ≡ c.provider)
        × (t.model ≡ provider_model_name facts.registry target c.provider)
  unfolding target_steps as_target contains
  target_steps-provider c seen [] i u fresh = absurd i
  target_steps-provider c seen (d ∷ chain) i u fresh = elim (Bool-cases (opens seen d)) [
    | inl e ↦ rw e (elim (Bool-cases (d.provider == c.provider)) [
      | inl same ↦
          let p : d.provider ≡ c.provider = (string_eq.beq_iff d.provider c.provider).0 same in
          (
            as_target N facts target d,
            inl refl,
            p,
            ap (provider_model_name facts.registry target) p,
          )
      | inr other ↦
          let (t, j, p, m) =
            target_steps-provider c (d.provider ∷ seen) chain
              (elim i [
                | inl e ↦
                    absurd
                      (differs d.provider c.provider other (ap (λ (x : Step). x.provider) (sym e)))
                | inr l ↦ l
              ])
              u (rw (other, fresh) refl) in
          (t, inr j, p, m)
    ])
    | inr e ↦ rw e (
        target_steps-provider c seen chain
          (elim i [ inl same ↦ absurd (skips seen c d e same u fresh) | inr l ↦ l ]) u fresh)
  ]
