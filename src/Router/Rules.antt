-- ===== src/Router/Rules.antt =====
-- The routing rules of src/api/router.py: when a rule matches, which steps it is about, the blocks
-- and the preference. A missing `provider`, `model` or `policy` of a rule is the empty text, which
-- the code treats alike; a missing `profile` or `task` is "*".
use simple_lcp.Prelude.{
  String, Bool, false, not, ◌&&◌, ◌||◌, Option, none, some, List, [], ◌∷◌, ◌++◌, ◌==◌, string_eq,
  length, ltb, select, any, contains, if◌then◌else◌,
}
use simple_lcp.Chain.Forward.{Step}
use simple_lcp.Router.Names.{logical_model_name}
use simple_lcp.Router.Scores.{Floats, Facts, get_model_score}

-- one task, or a list of tasks
pub data Tasks : Type 0 where
  one : String → Tasks
  among : List String → Tasks

pub record Rule (N : Floats) : Type 0 where
  pub action : String
  pub enabled : Bool
  pub profile : String
  pub task : Tasks
  pub provider : String
  pub model : String
  pub min_score : Option N.F
  pub policy : String

-- An entry of the `fired` lists.
pub record Fired : Type 0 where
  pub action : String
  pub provider : String
  pub model : String

-- in ("*", "")
unfoldable pub is_wild : String → Bool
is_wild s = s == "*" || s == ""

-- rule.get(…) or "*"
unfoldable pub or_star : String → String
or_star s = if s == "" then "*" else s

abbrev task_matches : Tasks → String → Bool
task_matches (one t) task = is_wild t || t == task
task_matches (among ts) task = contains task ts

unfoldable pub add_once : String → List String → List String
add_once s found = if contains s found then found else s ∷ found

module _ (N : Floats) where
  unfoldable pub rule_matches : Rule N → String → String → Bool
  rule_matches r task profile =
      r.enabled && ((is_wild r.profile || r.profile == profile) && task_matches r.task task)

  -- whether a rule's provider or model is one to look at
  unfoldable pub names_target : Rule N → Bool
  names_target r = not (r.provider == "" && r.model == "")

  -- policy rules override the policy
  unfoldable pub scoped_policy : List (Rule N) → String → String → String → String
  scoped_policy [] task profile policy = policy
  scoped_policy (r ∷ rules) task profile policy = scoped_policy rules task profile (
      if r.action == "policy"
        && (rule_matches r task profile
            && contains r.policy ("eager" ∷ "cost_first" ∷ "explore" ∷ []))
      then r.policy
      else policy)

  module _ (facts : Facts N) where
    unfoldable pub rule_target : Rule N → Step → Bool
    rule_target r s =
        (is_wild r.provider || r.provider == s.provider)
        && ((is_wild r.model
              || logical_model_name facts.registry r.model
                == logical_model_name facts.registry s.model)
            && (not (is_wild r.provider) || not (is_wild r.model)))

    -- What `_apply_blocks` returns, without the blocked providers, which no caller reads.
    pub record Blocks : Type 0 where
      pub candidates : List Step
      pub fired : List Fired
      pub blocked_models : List String

    unfoldable pub is_block : Rule N → String → String → Bool
    is_block r task profile = r.action == "block" && (rule_matches r task profile && names_target r)

    -- the candidates without the targets of a rule, and the record of it when it removed some
    unfoldable pub block : Rule N → Blocks → Blocks
    block r b =
        let kept = select (λ (s : Step). not (rule_target r s)) b.candidates in
        if ltb (length kept) (length b.candidates)
        then record {
          candidates = kept;
          fired =
              b.fired
              ++ record { action = "block"; provider = or_star r.provider; model = or_star r.model }
                ∷ [];
          blocked_models =
              if not (r.model == "") && r.provider == ""
              then add_once (logical_model_name facts.registry r.model) b.blocked_models
              else b.blocked_models;
        }
        else record b { candidates = kept }

    unfoldable pub block_each : List (Rule N) → String → String → Blocks → Blocks
    block_each [] task profile b = b
    block_each (r ∷ rules) task profile b =
        block_each rules task profile (if is_block r task profile then block r b else b)

    unfoldable pub apply_blocks : List (Rule N) → List Step → String → String → Blocks
    apply_blocks rules chain task profile =
        block_each rules task profile
          (record { candidates = chain; fired = []; blocked_models = [] })

    -- What `_resolve_prefer` returns.
    pub record Preference : Type 0 where
      pub target : Option String
      pub provider : Option String
      pub fired : List Fired

    -- what one prefer rule comes to: a preference, an entry of `fired` and the next rule, or nothing
    pub data Turn : Type 0 where
      found : Option String → Option String → String → Turn
      passed : String → Turn
      unmatched : Turn

    abbrev pub below_gate : Option N.F → N.F → Bool
    below_gate none cap = false
    below_gate (some gate) cap = N.lt cap gate

    -- a chain step of the preferred model, at the rule's provider
    unfoldable pub serves : Rule N → Step → Bool
    serves r s =
        (is_wild r.provider || s.provider == r.provider)
        && logical_model_name facts.registry s.model == logical_model_name facts.registry r.model

    abbrev unless_wild : String → Option String
    unless_wild p = if is_wild p then none else some p

    unfoldable pub prefer : Rule N → List Step → String → Turn
    unfolding serves
    prefer r chain task =
        let logical = logical_model_name facts.registry r.model in
        if is_wild r.model
        then if any (rule_target r) chain
          then found none (unless_wild r.provider) "prefer"
          else unmatched
        else if below_gate r.min_score (get_model_score N facts logical task)
        then passed "prefer_skipped_low_score"
        else if any (serves r) chain
        then found (some logical) (unless_wild r.provider) "prefer"
        else passed "prefer_unserved"

    unfoldable pub is_prefer : Rule N → String → String → Bool
    is_prefer r task profile =
        r.action == "prefer" && (rule_matches r task profile && names_target r)

    unfoldable pub fired_by : Rule N → String → Fired
    fired_by r action = record {
      action = action;
      provider = or_star r.provider;
      model = or_star r.model;
    }

    -- what the loop does after one rule's turn
    unfoldable pub resume : Rule N → List Fired → (List Fired → Preference) → Turn → Preference
    unfolding fired_by
    resume r fired onward (found target provider action) = record {
      target = target;
      provider = provider;
      fired = fired ++ fired_by r action ∷ [];
    }
    resume r fired onward (passed action) = onward (fired ++ fired_by r action ∷ [])
    resume r fired onward unmatched = onward fired

    unfoldable pub resolve_prefer :
        List (Rule N) → List Step → String → String → List Fired → Preference
    resolve_prefer [] chain task profile fired = record {
      target = none;
      provider = none;
      fired = fired;
    }
    resolve_prefer (r ∷ rules) chain task profile fired =
        let onward = resolve_prefer rules chain task profile in
        if is_prefer r task profile
        then resume r fired onward (prefer r chain task)
        else onward fired
