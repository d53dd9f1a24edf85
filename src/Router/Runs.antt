-- ===== src/Router/Runs.antt =====
-- Runs of the router of src/api/router.py and facts of the data of Router/Sample.
use simple_lcp.Prelude.{
  ◌≡◌, sym, subst, refl, ◌⊎◌, true, false, some, List, [], ◌∷◌, string_eq, inl, inr, IsIn, lookup,
  insert, any, contains, select, sort_by, insert_sorted,
}
use simple_lcp.Breaker.Table.{list_table}
use simple_lcp.Chain.Forward.{Step}
use simple_lcp.Chain.Examples.{cfg, breaker, pair, closed, open_step}
use simple_lcp.Router.Names.{
  logical_model_name, benchmark_model_name, provider_model_name, normalize_model_id,
  alias_to_logical, pass_one, pass_two, explicit_aliases, set_default, lower_text, strip,
  last_segment,
}
use simple_lcp.Router.Scores.{
  choose_target_model, choose_ranked, ranked, score_model, score_step, get_model_score, explored,
  settle_on, candidate_models, chain_models, fits_context,
}
use simple_lcp.Router.Rules.{
  Rule, is_block, rule_target, rule_matches, names_target, is_wild, apply_blocks, block_each,
  resolve_prefer, scoped_policy,
}
use simple_lcp.Router.Select.{
  available_steps, route, route_blocked, fitting, prefer_or_score, score_models, take_target,
  conclude_with, conclude, select_enabled, select_step,
}
use simple_lcp.Router.Request.{
  held_by_margin, intent_margin, scored_tasks, bias_of, rules_of, is_enabled, effective_policy,
  narrow_to_intents,
}
use simple_lcp.Router.Build.{
  build_chain_for_model, target_steps, as_target, fallback_steps, is_listed, goes_before, key_lt,
  credit_rank, health_rank,
}
use simple_lcp.Router.Blocks.{is_blocked}
use simple_lcp.Router.Free.{is_free}
use simple_lcp.Router.Safe.{IsNamedBack}
use simple_lcp.Router.Choice.{WalksAll}
use simple_lcp.Breaker.Ops.{is_available, status_of, peek}
use simple_lcp.Breaker.Health.{default_health}
use simple_lcp.Chain.Prepare.{key_of, base_url_of}
use simple_lcp.Pipeline.Errors.{lstrip}
use simple_lcp.Pipeline.Normalize.{rstrip, is_space}
use simple_lcp.Router.Sample.{hundredths, registry, facts, rule, scope, planning, start, noon}

-- The better model is the second one: the chain is turned around, and its steps keep their providers.
pub reordered :
    (select_step hundredths facts list_table cfg "l2" (scope []) planning noon pair start).0
    ≡ some (open_step ∷ closed ∷ [])
unfolding select_step select_enabled available_steps route route_blocked apply_blocks block_each
    resolve_prefer fitting prefer_or_score score_models held_by_margin intent_margin scored_tasks
    choose_target_model choose_ranked ranked score_model score_step get_model_score explored
    settle_on bias_of candidate_models chain_models take_target conclude_with conclude
    build_chain_for_model target_steps as_target fallback_steps is_listed goes_before key_lt
    credit_rank health_rank logical_model_name benchmark_model_name provider_model_name
    normalize_model_id alias_to_logical pass_one pass_two explicit_aliases set_default lower_text
    strip last_segment rules_of is_enabled effective_policy scoped_policy narrow_to_intents
    is_available status_of peek default_health key_of base_url_of lstrip rstrip is_space lookup
    insert any contains select sort_by insert_sorted
reordered = refl

abbrev pub all_blocked : List (Rule hundredths)
all_blocked = rule "block" "m1" ∷ rule "block" "m2" ∷ []

closed-IsNamedBack : IsNamedBack hundredths facts list_table cfg "l2" closed
unfolding logical_model_name benchmark_model_name provider_model_name normalize_model_id
    alias_to_logical pass_one pass_two explicit_aliases set_default lower_text strip last_segment
    lstrip rstrip is_space lookup insert
closed-IsNamedBack = refl

open-IsNamedBack : IsNamedBack hundredths facts list_table cfg "l2" open_step
unfolding logical_model_name benchmark_model_name provider_model_name normalize_model_id
    alias_to_logical pass_one pass_two explicit_aliases set_default lower_text strip last_segment
    lstrip rstrip is_space lookup insert
open-IsNamedBack = refl

pub closed-is_free : is_free hundredths facts list_table cfg "l2" breaker noon closed ≡ true
unfolding is_free is_available key_of base_url_of peek default_health lookup
closed-is_free = refl

pub closed-is_allowed : is_blocked hundredths facts "planning" "l2" [] closed ≡ false
unfolding is_blocked any
closed-is_allowed = refl

pub closed-fits : fits_context hundredths facts (logical_model_name registry "m1") 0 ≡ true
unfolding fits_context
closed-fits = refl

blocked_by_both :
    (is_blocked hundredths facts "planning" "l2" all_blocked closed ≡ true)
    × (is_blocked hundredths facts "planning" "l2" all_blocked open_step ≡ true)
unfolding is_blocked is_block rule_target rule_matches names_target is_wild any contains
    logical_model_name benchmark_model_name provider_model_name normalize_model_id alias_to_logical
    pass_one pass_two explicit_aliases set_default lower_text strip last_segment lstrip rstrip
    is_space lookup insert
blocked_by_both = (refl, refl)

pub all-blocked :
    (c : Step)
    → IsIn c pair
    → (is_free hundredths facts list_table cfg "l2" breaker noon c ≡ false)
      ⊎ (is_blocked hundredths facts "planning" "l2" all_blocked c ≡ true)
all-blocked c (inl e) = inr (
    subst (λ x. is_blocked hundredths facts "planning" "l2" all_blocked x ≡ true) (sym e)
      blocked_by_both.0)
all-blocked c (inr (inl e)) = inr (
    subst (λ x. is_blocked hundredths facts "planning" "l2" all_blocked x ≡ true) (sym e)
      blocked_by_both.1)
all-blocked c (inr (inr i)) = absurd i

pub facts-WalksAll : WalksAll hundredths facts
facts-WalksAll = record { meets = λ m ms i. i; only = λ m ms i. i }

pub registry_names_back :
    (c : Step) → IsIn c pair → IsNamedBack hundredths facts list_table cfg "l2" c
registry_names_back c (inl e) =
    subst (λ x. IsNamedBack hundredths facts list_table cfg "l2" x) (sym e) closed-IsNamedBack
registry_names_back c (inr (inl e)) =
    subst (λ x. IsNamedBack hundredths facts list_table cfg "l2" x) (sym e) open-IsNamedBack
registry_names_back c (inr (inr i)) = absurd i
