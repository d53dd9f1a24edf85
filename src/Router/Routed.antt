-- ===== src/Router/Routed.antt =====
-- The chain that `select_step` of src/api/router.py answers, against the chain that it was given:
-- which steps may be on it, and which are.
use simple_lcp.Prelude.{
  ℕ, String, ◌≡◌, refl, sym, ap, ◌∙◌, Bool, true, false, not, Option, some, none, List, [], ◌∷◌,
  string_eq, select, arith, if◌then◌else◌,
}
use simple_lcp.Breaker.Health.{Now}
use simple_lcp.Breaker.Table.{HealthTable}
use simple_lcp.Breaker.Ops.{Breaker}
use simple_lcp.Chain.Forward.{Step, Config}
use simple_lcp.Router.Scores.{Floats, Facts}
use simple_lcp.Router.Rules.{Fired, apply_blocks}
use simple_lcp.Router.Build.{build_chain_for_model}
use simple_lcp.Router.Select.{
  RouterState, available_steps, conclude, head_stands, take_target, conclude_with, score_models,
  prefer_or_score, route_blocked, route, select_enabled, select_step,
}
use simple_lcp.Router.Request.{
  Detail, Scope, rules_of, narrow_to_intents, held_by_margin, is_enabled,
}
use simple_lcp.Router.Blocks.{is_blocked, apply_blocks-filters}
use simple_lcp.Router.Free.{is_free, available_steps-filters}

module _ (N : Floats) (facts : Facts N) (T : HealthTable) (cfg : Config) (profile : String) where
  conclude-chain :
      (d : Detail N) (policy : String) (fired : List String) (head : Step) (built xs : List Step)
      → (conclude N facts T cfg profile d policy fired head built).chain ≡ some xs
      → built ≡ xs
  unfolding conclude
  conclude-chain d policy fired head [] xs h = cc
  conclude-chain d policy fired head (s ∷ built) xs h = ground arith

  -- `xs` is the chain built from `kept` for some model.
  abbrev IsBuilt : ℕ → Breaker T → List Step → List Step → Type 0
  IsBuilt tokens b kept xs =
      (preferred : Option String) × (target : String) × (build_chain_for_model N facts T cfg profile
          preferred target tokens b kept
        ≡ xs)

  take_target-chain :
      (d : Detail N) (policy : String) (fired : List String) (b : Breaker T) (head : Step)
      (rest : List Step) (provider found : Option String) (xs : List Step)
      → (take_target N facts T cfg profile d policy fired b head rest provider found).chain
        ≡ some xs
      → IsBuilt d.token_count b (head ∷ rest) xs
  unfolding take_target head_stands conclude_with
  take_target-chain d policy fired b head rest provider none xs h = cc
  take_target-chain d policy fired b head rest provider (some target) xs h =
      (provider, target, conclude-chain d policy fired head _ xs h)

  held-or :
      (t : Bool) (d : Detail N) (policy : String) (fired : List String) (b : Breaker T)
      (head : Step) (rest : List Step) (provider found : Option String) (xs : List Step)
      → (if t
          then head_stands N facts T cfg profile d policy fired head "margin_gate"
          else take_target N facts T cfg profile d policy fired b head rest provider found).chain
        ≡ some xs
      → IsBuilt d.token_count b (head ∷ rest) xs
  unfolding head_stands
  held-or true d policy fired b head rest provider found xs h = cc
  held-or false d policy fired b head rest provider found xs h =
      take_target-chain d policy fired b head rest provider found xs h

  prefer_or_score-chain :
      (sc : Scope N) (d : Detail N) (policy : String) (min_score : N.F)
      (fired blocked : List String) (b : Breaker T) (head : Step) (rest : List Step)
      (provider preferred : Option String) (xs : List Step)
      → (prefer_or_score N facts T cfg profile sc d policy min_score fired blocked b head rest
          provider preferred).chain
        ≡ some xs
      → IsBuilt d.token_count b (head ∷ rest) xs
  unfolding prefer_or_score score_models conclude_with
  prefer_or_score-chain sc d policy min_score fired blocked b head rest provider (some target) xs
        h =
      (provider, target, conclude-chain d policy fired head _ xs h)
  prefer_or_score-chain sc d policy min_score fired blocked b head rest provider none xs h =
      held-or (held_by_margin N sc.intent_margin_gate d) d policy fired b head rest provider _ xs h

  route_blocked-chain :
      (sc : Scope N) (d : Detail N) (policy : String) (min_score : N.F) (b : Breaker T)
      (fired : List Fired) (blocked : List String) (kept xs : List Step)
      → (route_blocked N facts T cfg profile sc d policy min_score b fired blocked kept).chain
        ≡ some xs
      → IsBuilt d.token_count b kept xs
  unfolding route_blocked
  route_blocked-chain sc d policy min_score b fired blocked [] xs h = cc
  route_blocked-chain sc d policy min_score b fired blocked (head ∷ rest) xs h =
      prefer_or_score-chain sc d policy min_score _ blocked b head rest _ _ xs h

  -- the steps that the breaker and the block rules leave
  unfoldable pub survivors : Scope N → Detail N → Now → Breaker T → List Step → List Step
  survivors sc d now b chain =
      select (λ (s : Step). not (is_blocked N facts d.task profile (rules_of N sc) s))
        (select (is_free N facts T cfg profile b now) chain)

  pub survivors-candidates :
      (sc : Scope N) (d : Detail N) (now : Now) (chain : List Step) (b : Breaker T)
      → (apply_blocks N facts
          (rules_of N sc)
          (available_steps N facts T cfg profile now chain b).0
          d.task
          profile).candidates
        ≡ survivors sc d now b chain
  unfolding survivors
  survivors-candidates sc d now chain b =
      apply_blocks-filters N facts d.task profile (rules_of N sc) _
      ∙ ap (select (λ (s : Step). not (is_blocked N facts d.task profile (rules_of N sc) s)))
          (available_steps-filters N facts T cfg profile now chain b)

  abbrev pub narrow : Scope N → Detail N → Detail N
  narrow sc d = narrow_to_intents N d sc.intents

  switched :
      (on : Bool) (r : Option (List Step) × RouterState N facts T cfg profile)
      (st : RouterState N facts T cfg profile) (xs : List Step)
      → (if not on then (none, st) else r).0 ≡ some xs
      → (if not on then (none, st) else r) ≡ r
  switched true r st xs h = refl
  switched false r st xs h = cc

  select_enabled-IsBuilt :
      (sc : Scope N) (d : Detail N) (now : Now) (chain xs : List Step)
      (st : RouterState N facts T cfg profile)
      → (select_enabled N facts T cfg profile sc d now chain st).0 ≡ some xs
      → IsBuilt
          (narrow sc d).token_count
          (select_enabled N facts T cfg profile sc d now chain st).1.breaker
          (survivors sc (narrow sc d) now st.breaker chain)
          xs
  unfolding select_enabled route
  select_enabled-IsBuilt sc d now chain xs st h =
      let (kept, b) = available_steps N facts T cfg profile now chain st.breaker in
      let blocks = apply_blocks N facts (rules_of N sc) kept (narrow sc d).task profile in
      let (preferred, target, e) =
        route_blocked-chain sc (narrow sc d) _ _ b blocks.fired blocks.blocked_models
          blocks.candidates xs h in
      (
        preferred,
        target,
        ap
              (build_chain_for_model N facts T cfg profile preferred target
                (narrow sc d).token_count b)
              (sym (survivors-candidates sc (narrow sc d) now chain st.breaker))
            ∙ e,
      )

  pub select_step-IsBuilt :
      (sc : Scope N) (d : Detail N) (now : Now) (chain xs : List Step)
      (st : RouterState N facts T cfg profile)
      → (select_step N facts T cfg profile sc d now chain st).0 ≡ some xs
      → IsBuilt
          (narrow sc d).token_count
          (select_step N facts T cfg profile sc d now chain st).1.breaker
          (survivors sc (narrow sc d) now st.breaker chain)
          xs
  unfolding select_step
  select_step-IsBuilt sc d now [] xs st h = cc
  select_step-IsBuilt sc d now (s ∷ chain) xs st h =
      let r = select_enabled N facts T cfg profile sc d now (s ∷ chain) st in
      let e = switched (is_enabled N st.enabled sc) r st xs h in
      rw e (select_enabled-IsBuilt sc d now (s ∷ chain) xs st (ap (λ x. x.0) (sym e) ∙ h))
