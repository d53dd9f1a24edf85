-- ===== src/Router/Scores.antt =====
-- The scores of src/api/router.py: `get_model_score`, `score_step`, `_score_model`, the context
-- gate, `_candidate_models` and `_choose_target_model`. The floating-point numbers are a parameter;
-- `hundredths n` is the float that the source writes as n / 100. The order in which a Python set is
-- walked and the draw of `random.choices` are parameters too.
use simple_lcp.Prelude.{
  ℕ, ◌+◌, String, Bool, true, not, ◌&&◌, Option, none, some, List, [], ◌∷◌, map, ◌==◌, string_eq,
  nat_eq, leb, ltb, length, lookup, select, contains, sort_by, if◌then◌else◌,
}
use simple_lcp.Breaker.Health.{Status, healthy, degraded, dead}
use simple_lcp.Chain.Forward.{Step}
use simple_lcp.Router.Names.{Registry, logical_model_name, benchmark_model_name}

pub record Floats : Type 1 where
  pub F : Type 0
  pub lt : F → F → Bool
  pub le : F → F → Bool
  pub add : F → F → F
  pub sub : F → F → F
  pub mul : F → F → F
  pub div : F → F → F
  pub neg : F → F
  pub hundredths : ℕ → F

-- what `credit_status` of a provider's cost plugin answers
pub data Credit : Type 0 where
  funded drained unknown : Credit

-- What the scores are read from: the registry, the capability matrix by task and benchmark key, the
-- bias of the router, the two sources of context windows, the plugins, a set's order and the draw.
pub record Facts (N : Floats) : Type 0 where
  pub registry : Registry
  pub matrix : List (String × List (String × N.F))
  pub cost_bias : N.F
  pub get_model_limits : String → Option ℕ
  pub model_limits : String → Option ℕ
  pub credit_status : String → Credit
  pub set_order : List String → List String
  pub choices : List (String × N.F) → String

abbrev pub default_context_window : ℕ
default_context_window = 128000

abbrev pub context_output_reserve : ℕ
context_output_reserve = 8192

-- if ctx: return ctx, else the next source
abbrev window_or : Option ℕ → ℕ → ℕ
window_or none other = other
window_or (some n) other = if n == 0 then other else n

module _ (N : Floats) where
  -- DEFAULT_CAPABILITY.get(logical, 0.5)
  default_capability : String → N.F
  default_capability logical =
      if logical == "deepseek-v4-pro"
      then N.hundredths 85
      else if logical == "deepseek-v4-flash"
      then N.hundredths 65
      else N.hundredths 50

  -- _MODEL_PRICES.get(model, 1.0)
  model_price : String → N.F
  model_price model =
      if model == "deepseek-v4-pro"
      then N.hundredths 198
      else if model == "deepseek-v4-flash"
      then N.hundredths 27
      else N.hundredths 100

  -- _HEALTH_BONUS[status]
  health_bonus : Status → N.F
  health_bonus healthy = N.hundredths 5
  health_bonus degraded = N.neg (N.hundredths 3)
  health_bonus dead = N.neg (N.hundredths 25)

  credit_bonus : Credit → N.F
  credit_bonus drained = N.neg (N.hundredths 10)
  credit_bonus _ = N.hundredths 0

  abbrev value_or : Option N.F → N.F → N.F
  value_or none x = x
  value_or (some y) x = y

  abbrev scores_of : Option (List (String × N.F)) → List (String × N.F)
  scores_of none = []
  scores_of (some m) = m

  module _ (facts : Facts N) where
    unfoldable pub get_model_score : String → String → N.F
    unfolding default_capability
    get_model_score model task =
        let logical = logical_model_name facts.registry model in
        let benchmark = benchmark_model_name facts.registry logical in
        value_or (lookup benchmark (scores_of (lookup task facts.matrix)))
          (default_capability logical)

    -- `score_step`, of a step whose provider has this health and credit
    unfoldable pub score_step : Status → Credit → String → String → Option N.F → N.F
    unfolding model_price health_bonus credit_bonus
    score_step status credit model task bias =
        let cost_factor = N.div (model_price model) (N.hundredths 198) in
        let score =
          N.add (get_model_score model task)
            (N.mul (value_or bias facts.cost_bias) (N.sub (N.hundredths 100) cost_factor)) in
        N.add (N.add score (health_bonus status)) (credit_bonus credit)

    -- The breaker answers `healthy` for the empty provider, which the step has here.
    unfoldable pub score_model : String → String → Option N.F → N.F
    score_model model task bias = score_step healthy (facts.credit_status "") model task bias

    unfoldable pub context_window_for : String → ℕ
    context_window_for model =
        window_or (facts.get_model_limits model)
          (window_or (facts.model_limits model) default_context_window)

    unfoldable pub fits_context : String → ℕ → Bool
    fits_context model tokens =
        if tokens == 0
        then true
        else leb (tokens + context_output_reserve) (context_window_for model)

    -- cand.add(m) for each step
    unfoldable pub chain_models : List Step → List String → List String
    chain_models [] found = found
    chain_models (s ∷ chain) found =
        let m = logical_model_name facts.registry s.model in
        chain_models chain (if contains m found then found else m ∷ found)

    unfoldable pub candidate_models : List Step → List String → ℕ → List String
    candidate_models chain blocked tokens =
        let cand = select (λ (m : String). not (contains m blocked)) (chain_models chain []) in
        if tokens == 0 then cand else select (λ (m : String). fits_context m tokens) cand

    -- sorted(((score, m) for m in candidates), key=lambda x: -x[0])
    unfoldable pub ranked : List String → String → Option N.F → List (N.F × String)
    ranked candidates task bias =
        sort_by (λ (x y : N.F × String). N.lt (N.neg x.0) (N.neg y.0))
          (map (λ (m : String). (score_model m task bias, m)) (facts.set_order candidates))

    -- the model to explore, when the policy says so and there is a choice
    unfoldable pub explored :
        List (N.F × String) → N.F → String → String → Option N.F → Option String
    explored scored best task policy bias =
        let cutoff = N.sub best (N.hundredths 5) in
        let pool = select (λ (x : N.F × String). N.le cutoff x.0) scored in
        let weight = λ (x : N.F × String).
          let s = score_model x.1 task bias in
          N.add (if N.lt s (N.hundredths 0) then N.hundredths 0 else s) (N.hundredths 5) in
        if policy == "explore" && (ltb 1 (length scored) && ltb 1 (length pool))
        then some (facts.choices (map (λ (x : N.F × String). (x.1, weight x)) pool))
        else none

    -- don't flap away from the default within hysteresis
    unfoldable pub settle_on : N.F → String → N.F → String → String
    settle_on best model default_score default_logical =
        if not (model == default_logical) && N.le best (N.add default_score (N.hundredths 5))
        then default_logical
        else model

    abbrev model_or : Option String → String → String
    model_or none m = m
    model_or (some m) _ = m

    unfoldable pub choose_ranked :
        List (N.F × String) → String → String → N.F → Option N.F → String → Option String
    choose_ranked [] task policy min_score bias default_logical = none
    choose_ranked ((best, model) ∷ rest) task policy min_score bias default_logical =
        if N.lt best min_score
        then none
        else some (
            model_or (explored ((best, model) ∷ rest) best task policy bias)
              (settle_on best model (score_model default_logical task bias) default_logical))

    unfoldable pub choose_target_model :
        List String → String → String → N.F → Option N.F → String → Option String
    choose_target_model candidates task policy min_score bias default_logical =
        choose_ranked (ranked candidates task bias) task policy min_score bias default_logical
