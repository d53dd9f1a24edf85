-- ===== src/Router/Safe.antt =====
-- What the routed chain of `select_step` of src/api/router.py promises: no step that the breaker
-- refuses or that a rule blocks, and every other step that fits; and what becomes of the chain when
-- nothing is left of it.
use simple_lcp.Prelude.{
  String, ◌≡◌, refl, sym, ap, subst, ◌∙◌, ◌⊎◌, inl, inr, true, false, not, Option, some, none, List,
  [], ◌∷◌, string_eq, select, any, Bool-cases, Option-cases, arith, IsIn, select-IsIn, IsIn-select,
}
use simple_lcp.Breaker.Health.{Now}
use simple_lcp.Breaker.Table.{HealthTable}
use simple_lcp.Breaker.Ops.{Breaker, is_available}
use simple_lcp.Chain.Forward.{Step, Config, Upstream}
use simple_lcp.Chain.Prepare.{base_url_of, key_of}
use simple_lcp.Chain.Walk.{chosen}
use simple_lcp.Router.Names.{logical_model_name, provider_model_name}
use simple_lcp.Router.Scores.{Floats, Facts, fits_context}
use simple_lcp.Router.Rules.{Rule, rule_target, apply_blocks, scoped_policy}
use simple_lcp.Router.Build.{as_target}
use simple_lcp.Router.Select.{
  RouterState, available_steps, route_blocked, route, select_enabled, select_step,
}
use simple_lcp.Router.Request.{Detail, Scope, effective_policy, rules_of, is_enabled}
use simple_lcp.Router.Blocks.{is_blocked}
use simple_lcp.Router.Free.{is_free}
use simple_lcp.Router.Built.{built-traces, built-keeps}
use simple_lcp.Router.Routed.{narrow, survivors, survivors-candidates, select_step-IsBuilt}

module _ (N : Floats) (facts : Facts N) (T : HealthTable) (cfg : Config) (profile : String) where
  -- The registry leads the name by which the provider of `c` knows its model back to that model.
  abbrev pub IsNamedBack : Step → Type 0
  IsNamedBack c =
      logical_model_name facts.registry
        (provider_model_name facts.registry (logical_model_name facts.registry c.model) c.provider)
      ≡ logical_model_name facts.registry c.model

  pub survivor-IsIn :
      (sc : Scope N) (d : Detail N) (now : Now) (b : Breaker T) (c : Step) (chain : List Step)
      → IsIn c (survivors N facts T cfg profile sc d now b chain)
      → IsIn c chain
        × (is_free N facts T cfg profile b now c ≡ true)
        × (is_blocked N facts d.task profile (rules_of N sc) c ≡ false)
  unfolding survivors
  survivor-IsIn sc d now b c chain i =
      let (j, allowed) = select-IsIn _ c (select (is_free N facts T cfg profile b now) chain) i in
      let (k, free) = select-IsIn _ c chain j in (k, free, ground arith)

  pub base_url_of-as_target :
      (target : String) (c : Step)
      → base_url_of cfg (as_target N facts target c) ≡ base_url_of cfg c
  unfolding base_url_of as_target
  base_url_of-as_target target c = elim (Option-cases c.base_url) [
    | inl e ↦ rw e refl
    | inr (u, e) ↦ ground arith
  ]

  is_free-as_target :
      (b : Breaker T) (now : Now) (target : String) (c : Step)
      → is_free N facts T cfg profile b now (as_target N facts target c)
        ≡ is_free N facts T cfg profile b now c
  unfolding is_free key_of as_target
  is_free-as_target b now target c =
      ap
        (λ (u : String).
          (is_available T b (record { provider = c.provider; base_url = u; profile = profile })
            now).0)
        (base_url_of-as_target target c)

  rule_target-same :
      (r : Rule N) (s c : Step)
      → s.provider ≡ c.provider
      → logical_model_name facts.registry s.model ≡ logical_model_name facts.registry c.model
      → rule_target N facts r s ≡ rule_target N facts r c
  unfolding rule_target
  rule_target-same r s c p m = rw (p, m) refl

  is_blocked-same :
      (task : String) (rules : List (Rule N)) (s c : Step)
      → s.provider ≡ c.provider
      → logical_model_name facts.registry s.model ≡ logical_model_name facts.registry c.model
      → is_blocked N facts task profile rules s ≡ is_blocked N facts task profile rules c
  unfolding is_blocked any
  is_blocked-same task [] s c p m = refl
  is_blocked-same task (r ∷ rules) s c p m =
      rw (rule_target-same r s c p m, is_blocked-same task rules s c p m) refl

  -- When the registry leads every step's provider-side name back to the step's model, a chain that
  -- the router answers holds only steps that the breaker would let pass at that time, that no enabled
  -- block rule of the task and profile is about, and whose provider and model are those of a step
  -- of the chain that it was given, or the provider of one that is of the same model.
  pub routed_steps_are_safe :
      (sc : Scope N) (d : Detail N) (now : Now) (chain xs : List Step)
      (st : RouterState N facts T cfg profile)
      → ((c : Step) → IsIn c chain → IsNamedBack c)
      → (select_step N facts T cfg profile sc d now chain st).0 ≡ some xs
      → (s : Step) → IsIn s xs
      → (is_free N facts T cfg profile st.breaker now s ≡ true)
        × (is_blocked N facts (narrow N facts T cfg profile sc d).task profile (rules_of N sc) s
            ≡ false)
        × ((c : Step) × IsIn c chain
            × (s.provider ≡ c.provider)
            × (logical_model_name facts.registry s.model
                ≡ logical_model_name facts.registry c.model))
  unfolding as_target
  routed_steps_are_safe sc d now chain xs st back h s i =
      let d' = narrow N facts T cfg profile sc d in
      let b' = (select_step N facts T cfg profile sc d now chain st).1.breaker in
      let (preferred, target, e) =
        select_step-IsBuilt N facts T cfg profile sc d now chain xs st h in
      let traced =
        built-traces N facts target T cfg profile preferred d'.token_count b' s
          (survivors N facts T cfg profile sc d' now st.breaker chain)
          (subst (λ ys. IsIn s ys) (sym e) i) in
      elim traced [
        | inl j ↦
            let (k, free, allowed) = survivor-IsIn sc d' now st.breaker s chain j in
            (free, allowed, (s, k, refl, refl))
        | inr (c, j, uses, same) ↦
            let (k, free, allowed) = survivor-IsIn sc d' now st.breaker c chain j in
            let p : s.provider ≡ c.provider = ap (λ (x : Step). x.provider) same in
            let m : logical_model_name facts.registry s.model
                ≡ logical_model_name facts.registry c.model =
              ap (λ (x : Step). logical_model_name facts.registry x.model) same
              ∙ subst
                  (λ t.
                    logical_model_name facts.registry
                      (provider_model_name facts.registry t c.provider)
                    ≡ logical_model_name facts.registry c.model)
                  uses (back c k) in
            (
              ap (is_free N facts T cfg profile st.breaker now) same
                  ∙ is_free-as_target st.breaker now target c
                  ∙ free,
              is_blocked-same d'.task (rules_of N sc) s c p m ∙ allowed,
              (c, k, p, m),
            )
      ]

  -- A chain that the router answers keeps, by provider and model, every step of the given chain that
  -- the breaker lets pass, that is not blocked, and whose model can hold the request.
  pub routed_chain_keeps :
      (sc : Scope N) (d : Detail N) (now : Now) (chain xs : List Step)
      (st : RouterState N facts T cfg profile)
      → (select_step N facts T cfg profile sc d now chain st).0 ≡ some xs
      → (c : Step) → IsIn c chain
      → is_free N facts T cfg profile st.breaker now c ≡ true
      → is_blocked N facts (narrow N facts T cfg profile sc d).task profile (rules_of N sc) c
        ≡ false
      → fits_context N facts
          (logical_model_name facts.registry c.model)
          (narrow N facts T cfg profile sc d).token_count
        ≡ true
      → (s : Step) × IsIn s xs × (s.provider ≡ c.provider) × (s.model ≡ c.model)
  unfolding survivors
  routed_chain_keeps sc d now chain xs st h c i free allowed fits =
      let d' = narrow N facts T cfg profile sc d in
      let b' = (select_step N facts T cfg profile sc d now chain st).1.breaker in
      let (preferred, target, e) =
        select_step-IsBuilt N facts T cfg profile sc d now chain xs st h in
      let kept =
        IsIn-select (λ (x : Step). not (is_blocked N facts d'.task profile (rules_of N sc) x)) c
          (select (is_free N facts T cfg profile st.breaker now) chain)
          (IsIn-select (is_free N facts T cfg profile st.breaker now) c chain i free)
          (rw allowed refl) in
      let (s, j, p, m) =
        (built-keeps N facts target T cfg profile preferred d'.token_count b' c
            (survivors N facts T cfg profile sc d' now st.breaker chain) kept).0
          (inr fits) in
      (s, subst (λ ys. IsIn s ys) e j, p, m)

  memberless : (xs : List Step) → ((x : Step) → ¬ (IsIn x xs)) → xs ≡ []
  memberless [] none_in = refl
  memberless (x ∷ xs) none_in = absurd (none_in x (inl refl))

  select_enabled-empty :
      (sc : Scope N) (d : Detail N) (now : Now) (chain : List Step)
      (st : RouterState N facts T cfg profile)
      → survivors N facts T cfg profile sc (narrow N facts T cfg profile sc d) now st.breaker chain
        ≡ []
      → (select_enabled N facts T cfg profile sc d now chain st).0 ≡ none
  unfolding select_enabled route route_blocked
  select_enabled-empty sc d now chain st e =
      let d' = narrow N facts T cfg profile sc d in
      let (kept, b) = available_steps N facts T cfg profile now chain st.breaker in
      let blocks = apply_blocks N facts (rules_of N sc) kept d'.task profile in
      let same = survivors-candidates N facts T cfg profile sc d' now chain st.breaker in
      let (policy, min_score) = effective_policy N sc in
      ap
        (λ cs.
          (route_blocked N facts T cfg profile sc d'
            (scoped_policy N (rules_of N sc) d'.task profile policy) min_score b blocks.fired
            blocks.blocked_models cs).chain)
        (same ∙ e)

  -- When each step of the chain is refused by the breaker or blocked by a rule, the router answers
  -- nothing, so that the chain is walked as it stands, with the blocked steps on it.
  pub nothing_left_is_unrouted :
      (U : Upstream) (session : Option String) (sc : Scope N) (d : Detail N) (now : Now)
      (chain : List Step) (st : RouterState N facts T cfg profile)
      → ((c : Step)
          → IsIn c chain
          → (is_free N facts T cfg profile st.breaker now c ≡ false)
            ⊎ (is_blocked N facts (narrow N facts T cfg profile sc d).task profile (rules_of N sc) c
                ≡ true))
      → chosen T U cfg profile session chain (select_step N facts T cfg profile sc d now chain st).0
        ≡ chain
  unfolding select_step
  nothing_left_is_unrouted U session sc d now [] st gone = refl
  nothing_left_is_unrouted U session sc d now (s ∷ chain) st gone =
      let d' = narrow N facts T cfg profile sc d in
      let left = survivors N facts T cfg profile sc d' now st.breaker (s ∷ chain) in
      let e : left ≡ [] = memberless left (λ c i.
        let (k, free, allowed) = survivor-IsIn sc d' now st.breaker c (s ∷ chain) i in
        elim (gone c k) [ inl refused ↦ ground arith | inr blocked ↦ ground arith ]) in
      let off = select_enabled-empty sc d now (s ∷ chain) st e in
      elim (Bool-cases (is_enabled N st.enabled sc)) [
        | inl on ↦ rw (on, off) refl
        | inr on ↦ rw on refl
      ]
