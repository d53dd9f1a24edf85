-- ===== src/Router/Build.antt =====
-- `_build_chain_for_model` of src/api/router.py, with the health that the breaker of Breaker/Ops
-- tells and the credit that the plugins tell.
use simple_lcp.Prelude.{
  ℕ, String, Bool, false, not, ◌&&◌, ◌||◌, Option, none, some, List, [], ◌∷◌, ◌++◌, ◌==◌, string_eq,
  nat_eq, ltb, select, any, contains, sort_by, if◌then◌else◌,
}
use simple_lcp.Breaker.Health.{Status, healthy, degraded, dead}
use simple_lcp.Breaker.Table.{HealthTable}
use simple_lcp.Breaker.Ops.{Breaker, status_of}
use simple_lcp.Chain.Forward.{Step, Config}
use simple_lcp.Chain.Prepare.{key_of}
use simple_lcp.Router.Names.{logical_model_name, provider_model_name}
use simple_lcp.Router.Scores.{Floats, Facts, Credit, funded, drained, unknown, fits_context}

-- {"healthy": 0, "degraded": 1, "dead": 2}[status]
unfoldable pub health_rank : Status → ℕ
health_rank healthy = 0
health_rank degraded = 1
health_rank dead = 2

unfoldable pub credit_rank : Credit → ℕ
credit_rank drained = 1
credit_rank funded = 0
credit_rank unknown = 0

-- if step.get("base_url"): s["base_url"] = step["base_url"]
abbrev kept_url : Option String → Option String
kept_url none = none
kept_url (some u) = if u == "" then none else some u

abbrev same_step : Step → Step → Bool
same_step a b = a.provider == b.provider && a.model == b.model

-- (provider, model) in {(s["provider"], s["model"]) for s in steps}
unfoldable pub is_listed : Step → List Step → Bool
is_listed s steps = any (λ (t : Step). same_step t s) steps

-- preferred_provider and s["provider"] == preferred_provider
abbrev is_preferred : Option String → Step → Bool
is_preferred none s = false
is_preferred (some p) s = not (p == "") && s.provider == p

-- `<` on the keys (0 if preferred else 1, health rank, credit rank), component by component
unfoldable pub key_lt : Bool → Bool → ℕ → ℕ → ℕ → ℕ → Bool
key_lt preferred_s preferred_t health_s health_t credit_s credit_t =
    (preferred_s && not preferred_t)
    || (not (preferred_t && not preferred_s)
        && (ltb health_s health_t || (health_s == health_t && ltb credit_s credit_t)))

module _ (N : Floats) (facts : Facts N) where
  unfoldable pub as_target : String → Step → Step
  as_target target s = record {
    provider = s.provider;
    model = provider_model_name facts.registry target s.provider;
    base_url = kept_url s.base_url;
  }

  -- one step per provider, for its first chain step of the target model
  unfoldable pub target_steps : String → List String → List Step → List Step
  unfolding as_target
  target_steps target seen [] = []
  target_steps target seen (s ∷ chain) =
      let later = target_steps target (s.provider ∷ seen) chain in
      let rest = target_steps target seen chain in
      if not (contains s.provider seen) && logical_model_name facts.registry s.model == target
      then as_target target s ∷ later
      else rest

  unfoldable pub fallback_steps : List Step → List Step → ℕ → List Step
  fallback_steps targets chain tokens =
      let others = select (λ (s : Step). not (is_listed s targets)) chain in
      if tokens == 0
      then others
      else select
          (λ (s : Step). fits_context N facts (logical_model_name facts.registry s.model) tokens)
          others

  module _ (T : HealthTable) (cfg : Config) (profile : String) where
    rank_of : Breaker T → Step → ℕ
    rank_of b s = health_rank (status_of T b (key_of cfg profile s))

    credit_of : Step → ℕ
    credit_of s = credit_rank (facts.credit_status s.provider)

    unfoldable pub goes_before : Option String → Breaker T → Step → Step → Bool
    unfolding rank_of credit_of
    goes_before preferred b s t =
        key_lt (is_preferred preferred s) (is_preferred preferred t) (rank_of b s) (rank_of b t)
          (credit_of s) (credit_of t)

    unfoldable pub build_chain_for_model :
        Option String → String → ℕ → Breaker T → List Step → List Step
    build_chain_for_model preferred target tokens b chain =
        let targets = target_steps target [] chain in
        sort_by (goes_before preferred b) targets
        ++ sort_by (goes_before preferred b) (fallback_steps targets chain tokens)
