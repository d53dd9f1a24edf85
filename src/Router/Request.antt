-- ===== src/Router/Request.antt =====
-- What `select_step` of src/api/router.py is told of a request and its profile: the fields of
-- `ClassifyResult` that it reads, and what the settings and the configuration hold; with
-- `_effective_policy`, `is_enabled`, the narrowing to a profile's intents, the margin gate and the
-- decision log. The scores, notes and intent texts of the decisions are left out, and so is the
-- table that keeps them.
use simple_lcp.Prelude.{
  ℕ, String, Bool, false, ◌&&◌, Option, none, some, List, [], ◌∷◌, ◌++◌, ◌==◌, string_eq, nat_eq,
  ltb, length, contains, select, if◌then◌else◌,
}
use simple_lcp.Router.Names.{strip}
use simple_lcp.Router.Scores.{Floats}
use simple_lcp.Router.Rules.{Rule}

-- The fields of ClassifyResult that the router reads. A score that is no number is `none`.
pub record Detail (N : Floats) : Type 0 where
  pub task : String
  pub path : String
  pub semantic : List (String × Option N.F)
  pub token_count : ℕ

-- config.dynamic_routing
pub record Dynamic (N : Floats) : Type 0 where
  pub policy : Option String
  pub min_score : Option N.F
  pub rules : List (Rule N)

-- What the settings store answers for the profile, and what the configuration says.
pub record Scope (N : Floats) : Type 0 where
  pub stored_enabled : Option Bool
  pub stored_policy : String → String
  pub stored_min_score : N.F → N.F
  pub stored_rules : List (Rule N)
  pub dynamic_routing : Dynamic N
  pub intents : List String
  pub intent_margin_gate : N.F

pub record Decision : Type 0 where
  pub action : String
  pub model : String
  pub provider : String
  pub task : String
  pub path : String
  pub policy : String
  pub rules : List String

-- decisions[-50:]
unfoldable pub keep_last : {A : Type 0} → ℕ → List A → List A
keep_last n [] = []
keep_last n (x ∷ xs) = let rest = keep_last n xs in if ltb n (length (x ∷ xs)) then rest else x ∷ xs

unfoldable pub record_decision : Decision → List Decision → List Decision
record_decision d decisions = keep_last 50 (decisions ++ d ∷ [])

module _ (N : Floats) where
  abbrev pub or_else {ℓ} : {A : Type ℓ} → Option A → A → A
  or_else none x = x
  or_else (some y) x = y

  unfoldable pub effective_policy : Scope N → String × N.F
  effective_policy sc = (
    or_else sc.dynamic_routing.policy (sc.stored_policy "eager"),
    or_else sc.dynamic_routing.min_score (sc.stored_min_score (N.hundredths 0)),
  )

  unfoldable pub is_enabled : Bool → Scope N → Bool
  is_enabled enabled sc = or_else sc.stored_enabled enabled

  -- _rules(config, profile)
  unfoldable pub rules_of : Scope N → List (Rule N)
  rules_of sc = elim sc.stored_rules [ [] ↦ sc.dynamic_routing.rules | r ∷ rs ↦ r ∷ rs ]

  -- [(t, s) for t, s in semantic if isinstance(s, (int, float))]
  unfoldable pub scored_tasks : List (String × Option N.F) → List (String × N.F)
  scored_tasks [] = []
  scored_tasks ((t, none) ∷ more) = scored_tasks more
  scored_tasks ((t, some s) ∷ more) = (t, s) ∷ scored_tasks more

  unfoldable pub narrowed : Detail N → String → List (String × N.F) → Detail N
  narrowed d first [] = record d { task = first; path = "intent_declared" }
  narrowed d first ((t, s) ∷ more) = record d { task = t; path = "intent_narrowed" }

  unfoldable pub narrow_to_intents : Detail N → List String → Detail N
  unfolding narrowed
  narrow_to_intents d [] = d
  narrow_to_intents d (i ∷ is) =
      if contains (strip d.task) (i ∷ is)
      then d
      else narrowed d i
          (select (λ (e : String × N.F). contains e.0 (i ∷ is)) (scored_tasks d.semantic))

  -- top1 - top2, when two tasks scored
  unfoldable pub intent_margin : Detail N → Option N.F
  intent_margin d = elim (scored_tasks d.semantic) [
    | [] ↦ none
    | a ∷ more ↦ elim more [ [] ↦ none | b ∷ _ ↦ some (N.sub a.1 b.1) ]
  ]

  -- whether the gate leaves the chain as it is
  unfoldable pub held_by_margin : N.F → Detail N → Bool
  held_by_margin gate d =
      N.lt (N.hundredths 0) gate && elim (intent_margin d) [ none ↦ false | some m ↦ N.lt m gate ]

  -- min(self.cost_bias + 0.15, 0.5) if policy == "cost_first" else None
  unfoldable pub bias_of : N.F → String → Option N.F
  bias_of cost_bias policy =
      let raised = N.add cost_bias (N.hundredths 15) in
      if policy == "cost_first"
      then some (if N.lt (N.hundredths 50) raised then N.hundredths 50 else raised)
      else none
