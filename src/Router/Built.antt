-- ===== src/Router/Built.antt =====
-- The chain that `_build_chain_for_model` of src/api/router.py builds: where its steps come from,
-- which steps it holds, and which one heads it.
use simple_lcp.Prelude.{
  ℕ, String, ◌≡◌, refl, ◌⊎◌, inl, inr, Bool, true, false, not, Option, List, [], ◌∷◌, ◌++◌, ◌==◌,
  string_eq, nat_eq, select, contains, sort_by, Bool-cases, arith, IsIn, append-IsIn,
  IsIn-append_left, IsIn-append_right, select-IsIn, IsIn-select, sort_by-IsIn, sort_by-head,
}
use simple_lcp.Breaker.Table.{HealthTable}
use simple_lcp.Breaker.Ops.{Breaker}
use simple_lcp.Chain.Forward.{Step, Config}
use simple_lcp.Router.Names.{logical_model_name, provider_model_name}
use simple_lcp.Router.Scores.{Floats, Facts, fits_context}
use simple_lcp.Router.Build.{
  as_target, target_steps, fallback_steps, goes_before, is_listed, build_chain_for_model,
}
use simple_lcp.Router.Targets.{
  is_listed-IsIn, key_lt_asymm, key_lt_irrefl, key_lt_trans, gated-IsIn, Uses, target_steps-IsIn,
  target_steps-provider,
}

module _ (N : Floats) (facts : Facts N) (target : String) where
  module _ (T : HealthTable) (cfg : Config) (profile : String) (preferred : Option String)
      (tokens : ℕ) (b : Breaker T) where
    abbrev built : List Step → List Step
    built chain = build_chain_for_model N facts T cfg profile preferred target tokens b chain

    abbrev targets : List Step → List Step
    targets chain = target_steps N facts target [] chain

    abbrev order : Step → Step → Bool
    order = goes_before N facts T cfg profile preferred b

    abbrev fallbacks : List Step → List Step
    fallbacks chain = fallback_steps N facts (targets chain) chain tokens

    fallback-IsIn :
        (s : Step) (ts chain : List Step)
        → IsIn s (fallback_steps N facts ts chain tokens)
        → IsIn s chain
    unfolding fallback_steps
    fallback-IsIn s ts chain h =
        (select-IsIn _ s chain
          (gated-IsIn (tokens == 0) _ s (select (λ (x : Step). not (is_listed x ts)) chain) h)).0

    -- Every step of the built chain is a step of the chain that it was built from, or the target
    -- model's step at the provider of such a step that is of the target model.
    pub built-traces :
        (s : Step) (chain : List Step)
        → IsIn s (built chain)
        → IsIn s chain
          ⊎ ((c : Step) × IsIn c chain × Uses N facts target c × (s ≡ as_target N facts target c))
    unfolding build_chain_for_model
    built-traces s chain h =
        elim (append-IsIn s (sort_by order (targets chain)) (sort_by order (fallbacks chain)) h) [
          | inl l ↦ inr (
              target_steps-IsIn N facts target s [] chain
                ((sort_by-IsIn order s (targets chain)).0 l))
          | inr r ↦
              inl (
                fallback-IsIn s (targets chain) chain
                  ((sort_by-IsIn order s (fallbacks chain)).0 r))
        ]

    abbrev Fits : Step → Type 0
    Fits c =
        (tokens ≡ 0)
        ⊎ (fits_context N facts (logical_model_name facts.registry c.model) tokens ≡ true)

    holds :
        (c : Step)
        → Fits c
        → (tokens == 0) ≡ false
        → fits_context N facts (logical_model_name facts.registry c.model) tokens ≡ true
    holds c fits e = ground arith

    IsIn-fallback :
        (c : Step) (ts chain : List Step)
        → IsIn c chain
        → is_listed c ts ≡ false
        → Fits c
        → IsIn c (fallback_steps N facts ts chain tokens)
    unfolding fallback_steps
    IsIn-fallback c ts chain i out fits =
        let kept = IsIn-select (λ (x : Step). not (is_listed x ts)) c chain i (rw out refl) in
        elim (Bool-cases (tokens == 0)) [
          | inl e ↦ rw e kept
          | inr e ↦ rw e (IsIn-select _ c _ kept (holds c fits e))
        ]

    -- Nothing that fits is lost: for every step of the chain whose model can hold the request, the
    -- built chain has a step with its provider and model; and for every step of the target model it
    -- has one with its provider and the name by which that provider knows the target.
    pub built-keeps :
        (c : Step) (chain : List Step)
        → IsIn c chain
        → (Fits c
            → (s : Step) × IsIn s (built chain) × (s.provider ≡ c.provider) × (s.model ≡ c.model))
          × (Uses N facts target c
              → (s : Step) × IsIn s (built chain)
                × (s.provider ≡ c.provider)
                × (s.model ≡ provider_model_name facts.registry target c.provider))
    unfolding build_chain_for_model contains
    built-keeps c chain i = (
      λ fits. elim (Bool-cases (is_listed c (targets chain))) [
        | inl e ↦
            let (t, j, p, m) = is_listed-IsIn c (targets chain) e in
            (
              t,
              IsIn-append_left t (sort_by order (targets chain)) (sort_by order (fallbacks chain))
                  ((sort_by-IsIn order t (targets chain)).1 j),
              p,
              m,
            )
        | inr e ↦ (
          c,
          IsIn-append_right c (sort_by order (targets chain)) (sort_by order (fallbacks chain)) (
              (sort_by-IsIn order c (fallbacks chain)).1
                (IsIn-fallback c (targets chain) chain i e fits)),
          refl,
          refl,
        )
      ],
      λ uses.
          let (t, j, p, m) = target_steps-provider N facts target c [] chain i uses refl in
          (
            t,
            IsIn-append_left t (sort_by order (targets chain)) (sort_by order (fallbacks chain))
                ((sort_by-IsIn order t (targets chain)).1 j),
            p,
            m,
          ),
    )

    -- When some step of the chain is of the target model, the built chain begins with the target
    -- model's step at such a provider, and no other target step is preferred, healthier, or as healthy
    -- and better funded.
    pub built-heads :
        (c : Step) (chain : List Step)
        → IsIn c chain
        → Uses N facts target c
        → (h : Step) × (rest : List Step) × (built chain ≡ h ∷ rest)
          × ((d : Step) × IsIn d chain × Uses N facts target d × (h ≡ as_target N facts target d))
          × ((t : Step) → IsIn t (targets chain) → order t h ≡ false)
    unfolding build_chain_for_model contains goes_before
    built-heads c chain i uses =
        let (t, j, p, m) = target_steps-provider N facts target c [] chain i uses refl in
        let (h, rest, e, in_targets, least) =
          sort_by-head order (λ x y. key_lt_asymm _ _ _ _ _ _) (λ x. key_lt_irrefl _ _ _)
            (λ x y z. key_lt_trans _ _ _ _ _ _ _ _ _) t (targets chain) j in
        (
          h,
          rest ++ sort_by order (fallbacks chain),
          rw e refl,
          target_steps-IsIn N facts target h [] chain in_targets,
          least,
        )
