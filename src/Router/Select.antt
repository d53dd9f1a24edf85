-- ===== src/Router/Select.antt =====
-- `select_step` of src/api/router.py. The classification of the request is an argument, and so is what
-- the settings and the configuration hold for the scope.
use simple_lcp.Prelude.{
  ℕ, String, Bool, not, ◌&&◌, Option, none, some, List, [], ◌∷◌, ◌++◌, map, ◌==◌, string_eq, nat_eq,
  contains, if◌then◌else◌,
}
use simple_lcp.Breaker.Health.{Now}
use simple_lcp.Breaker.Table.{HealthTable}
use simple_lcp.Breaker.Ops.{Breaker, is_available}
use simple_lcp.Chain.Forward.{Step, Config}
use simple_lcp.Chain.Prepare.{key_of}
use simple_lcp.Router.Names.{logical_model_name}
use simple_lcp.Router.Scores.{Floats, Facts, fits_context, candidate_models, choose_target_model}
use simple_lcp.Router.Rules.{Fired, Preference, apply_blocks, resolve_prefer, scoped_policy}
use simple_lcp.Router.Build.{build_chain_for_model}
use simple_lcp.Router.Request.{
  Detail, Scope, Decision, record_decision, or_else, effective_policy, is_enabled, rules_of,
  narrow_to_intents, held_by_margin, bias_of,
}

module _ (N : Floats) where
  module _ (facts : Facts N) (T : HealthTable) (cfg : Config) (profile : String) where
    -- the steps that the breaker lets pass, asked in the chain's order
    unfoldable pub available_steps : Now → List Step → Breaker T → List Step × Breaker T
    available_steps now [] b = ([], b)
    available_steps now (s ∷ chain) b =
        let (ok, b') = is_available T b (key_of cfg profile s) now in
        let (kept, b'') = available_steps now chain b' in (if ok then s ∷ kept else kept, b'')

    -- What a turn of `select_step` answers: the new chain, if any, and the decision to record, if any.
    pub record Answer : Type 0 where
      pub chain : Option (List Step)
      pub decision : Option Decision

    -- the preference, unless its model cannot hold the request
    unfoldable pub fitting : ℕ → Preference N facts → Preference N facts
    fitting tokens p = elim p.target [
      | none ↦ p
      | some target ↦ if fits_context N facts target tokens then p else record {
        target = none;
        provider = none;
        fired =
            p.fired
            ++ record {
              action = "prefer_context_excluded";
              provider = or_else N p.provider "*";
              model = target;
            }
              ∷ [];
      }
    ]

    unfoldable pub decide : Detail N → String → List String → String → Step → Decision
    decide d policy fired action s = record {
      action = action;
      model = s.model;
      provider = s.provider;
      task = d.task;
      path = d.path;
      policy = policy;
      rules = fired;
    }

    unfoldable pub action_of : Bool → String → Bool → String
    action_of prefer_fired policy unchanged =
        if prefer_fired
        then "prefer"
        else if unchanged
        then "keep_default"
        else if policy == "explore"
        then "explore"
        else "reorder"

    -- 5. the built chain, compared with the head of the chain it was built from
    unfoldable pub conclude : Detail N → String → List String → Step → List Step → Answer
    unfolding decide
    conclude d policy fired head [] = record { chain = none; decision = none }
    conclude d policy fired head (s ∷ built) =
        let prefer_fired = contains "prefer" fired in
        let unchanged = s.provider == head.provider && s.model == head.model in
        record {
          chain = if unchanged && not prefer_fired then none else some (s ∷ built);
          decision = some (decide d policy fired (action_of prefer_fired policy unchanged) s);
        }

    unfoldable pub conclude_with :
        Detail N
        → String
        → List String
        → Breaker T
        → Step
        → List Step
        → Option String
        → String
        → Answer
    conclude_with d policy fired b head rest provider target =
        conclude d policy fired head (
          build_chain_for_model N facts T cfg profile provider target d.token_count b (head ∷ rest))

    -- the static chain, with the reason on record
    unfoldable pub head_stands : Detail N → String → List String → Step → String → Answer
    unfolding decide
    head_stands d policy fired head action = record {
      chain = none;
      decision = some (decide d policy fired action head);
    }

    unfoldable pub take_target :
        Detail N
        → String
        → List String
        → Breaker T
        → Step
        → List Step
        → Option String
        → Option String
        → Answer
    take_target d policy fired b head rest provider none =
        head_stands d policy fired head "below_min_score"
    take_target d policy fired b head rest provider (some target) =
        conclude_with d policy fired b head rest provider target

    -- 4b. no preference: the margin gate, then the scores
    unfoldable pub score_models :
        Scope N
        → Detail N
        → String
        → N.F
        → List String
        → List String
        → Breaker T
        → Step
        → List Step
        → Option String
        → Answer
    score_models sc d policy min_score fired blocked b head rest provider =
        let default_logical = logical_model_name facts.registry head.model in
        if held_by_margin N sc.intent_margin_gate d
        then head_stands d policy fired head "margin_gate"
        else take_target d policy fired b head rest provider (
            choose_target_model N facts
              (candidate_models N facts (head ∷ rest) blocked d.token_count) d.task policy min_score
              (bias_of N facts.cost_bias policy) default_logical)

    unfoldable pub prefer_or_score :
        Scope N
        → Detail N
        → String
        → N.F
        → List String
        → List String
        → Breaker T
        → Step
        → List Step
        → Option String
        → Option String
        → Answer
    prefer_or_score sc d policy min_score fired blocked b head rest provider (some target) =
        conclude_with d policy fired b head rest provider target
    prefer_or_score sc d policy min_score fired blocked b head rest provider none =
        score_models sc d policy min_score fired blocked b head rest provider

    -- 3. and 4. of the steps that passed the breaker
    unfoldable pub route_blocked :
        Scope N
        → Detail N
        → String
        → N.F
        → Breaker T
        → List Fired
        → List String
        → List Step
        → Answer
    route_blocked sc d policy min_score b fired_blocks blocked [] = record {
      chain = none;
      decision = none;
    }
    route_blocked sc d policy min_score b fired_blocks blocked (head ∷ rest) =
        let p =
          fitting d.token_count
            (resolve_prefer N facts (rules_of N sc) (head ∷ rest) d.task profile []) in
        let fired = map (λ (f : Fired). f.action) (fired_blocks ++ p.fired) in
        prefer_or_score sc d policy min_score fired blocked b head rest p.provider p.target

    unfoldable pub route : Scope N → Detail N → Breaker T → List Step → Answer
    route sc d b chain =
        let (policy, min_score) = effective_policy N sc in
        let blocks = apply_blocks N facts (rules_of N sc) chain d.task profile in
        route_blocked sc d (scoped_policy N (rules_of N sc) d.task profile policy) min_score b
          blocks.fired blocks.blocked_models blocks.candidates

    abbrev pub logged : Option Decision → List Decision → List Decision
    logged none decisions = decisions
    logged (some d) decisions = record_decision d decisions

    pub record RouterState : Type 0 where
      pub enabled : Bool
      pub decisions : List Decision
      pub breaker : Breaker T

    -- `select_step` once routing is on
    unfoldable pub select_enabled :
        Scope N → Detail N → Now → List Step → RouterState → Option (List Step) × RouterState
    select_enabled sc detail now chain st =
        let d = narrow_to_intents N detail sc.intents in
        let (kept, b) = available_steps now chain st.breaker in
        let a = route sc d b kept in
        (a.chain, record st { breaker = b; decisions = logged a.decision st.decisions })

    -- what `select_step` answers, and the state after it
    unfoldable pub select_step :
        Scope N → Detail N → Now → List Step → RouterState → Option (List Step) × RouterState
    select_step sc detail now [] st = (none, st)
    select_step sc detail now (s ∷ chain) st =
        if not (is_enabled N st.enabled sc)
        then (none, st)
        else select_enabled sc detail now (s ∷ chain) st
