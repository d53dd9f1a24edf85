-- ===== src/Router/Examples.antt =====
-- Runs of the router of src/api/router.py over the data of Router/Sample.
use simple_lcp.Prelude.{
  ◌+◌, String, ◌≡◌, refl, ◌⊎◌, true, false, none, some, [], ◌∷◌, string_eq, arith, ltb, leb, inl,
  inr, IsIn, lookup, insert, any,
}
use simple_lcp.Breaker.Table.{list_table}
use simple_lcp.Chain.Forward.{Step}
use simple_lcp.Router.Gateway.{try_chain, request_spares_bystanders}
use simple_lcp.Breaker.Effects.{entry}
use simple_lcp.Chain.Examples.{
  stranger, far-IsOther, start as request, upstream, cfg, breaker, pair, closed, open_step,
}
use simple_lcp.Router.Names.{logical_model_name}
use simple_lcp.Router.Scores.{choose_target_model, score_model}
use simple_lcp.Router.Select.{select_step}
use simple_lcp.Router.Request.{rules_of, narrow_to_intents}
use simple_lcp.Router.Blocks.{is_blocked}
use simple_lcp.Router.Free.{is_free}
use simple_lcp.Router.Safe.{routed_steps_are_safe, routed_chain_keeps, nothing_left_is_unrouted}
use simple_lcp.Router.Choice.{IsBest, choice-IsBest}
use simple_lcp.Prelude.{All, ◌↔◌}
use simple_lcp.Router.Capacity.{near_limit, Misfits, preflight_warns_exactly}
use simple_lcp.Router.Served.{routed_request_is_served_safely}
use simple_lcp.Pipeline.Normalize.{has_image_content}
use simple_lcp.Pipeline.Retry.{call_with_retry}
use simple_lcp.Chain.Forward.{forward_request}
use simple_lcp.Breaker.Ops.{record_success}
use simple_lcp.Chain.Prepare.{prepare, needs_vision}
use simple_lcp.Chain.Walk.{Result, served, walk_chain, walk, visit, gate, attempt, settle, send}
use simple_lcp.Breaker.Ops.{is_available, status_of, peek}
use simple_lcp.Breaker.Health.{default_health}
use simple_lcp.Chain.Prepare.{key_of, base_url_of}
use simple_lcp.Chain.Walk.{chosen}
use simple_lcp.Router.Sample.{
  hundredths-IsOrdered, hundredths, registry, facts, scope, planning, start, noon,
}
use simple_lcp.Router.Runs.{
  reordered, all_blocked, closed-is_free, closed-is_allowed, closed-fits, all-blocked,
  facts-WalksAll, registry_names_back,
}

routed_steps_are_safe_example :
    (is_free hundredths facts list_table cfg "l2" breaker noon closed ≡ true)
    × (is_blocked hundredths facts "planning" "l2" [] closed ≡ false)
    × ((c : Step) × IsIn c pair
        × (closed.provider ≡ c.provider)
        × (logical_model_name registry closed.model ≡ logical_model_name registry c.model))
unfolding narrow_to_intents rules_of
routed_steps_are_safe_example =
    routed_steps_are_safe hundredths facts list_table cfg "l2" (scope []) planning noon pair
      (open_step ∷ closed ∷ []) start registry_names_back reordered closed (inr (inl refl))

routed_chain_keeps_example :
    (s : Step) × IsIn s (open_step ∷ closed ∷ [])
    × (s.provider ≡ closed.provider)
    × (s.model ≡ closed.model)
unfolding narrow_to_intents rules_of
routed_chain_keeps_example =
    routed_chain_keeps hundredths facts list_table cfg "l2" (scope []) planning noon pair
      (open_step ∷ closed ∷ []) start reordered closed (inl refl) closed-is_free closed-is_allowed
      closed-fits

nothing_left_is_unrouted_example :
    chosen list_table upstream cfg "l2" none pair
      (select_step hundredths facts list_table cfg "l2"
        (scope all_blocked)
        planning
        noon
        pair
        start).0
    ≡ pair
unfolding narrow_to_intents rules_of
nothing_left_is_unrouted_example =
    nothing_left_is_unrouted hundredths facts list_table cfg "l2" upstream none (scope all_blocked)
      planning noon pair start all-blocked

choice-IsBest_example :
    let choice =
      choose_target_model hundredths facts ("m1" ∷ "m2" ∷ []) "planning" "eager" 0 none "m1" in
    (best : String) × IsBest hundredths facts ("m1" ∷ "m2" ∷ []) "planning" none best
    × (((ltb (score_model hundredths facts best "planning" none) 0 ≡ true) × (choice ≡ none))
        ⊎ ((ltb (score_model hundredths facts best "planning" none) 0 ≡ false)
            × (((choice ≡ some best)
                  × ((best ≡ "m1")
                      ⊎ (leb
                            (score_model hundredths facts best "planning" none)
                            (score_model hundredths facts "m1" "planning" none + 5)
                          ≡ false)))
                ⊎ ((choice ≡ some "m1")
                    × (leb
                          (score_model hundredths facts best "planning" none)
                          (score_model hundredths facts "m1" "planning" none + 5)
                        ≡ true)))))
choice-IsBest_example =
    choice-IsBest hundredths facts ("m1" ∷ "m2" ∷ []) "planning" "eager" 0 none "m1" "m1"
      hundredths-IsOrdered facts-WalksAll (λ e. ground (arith, string_eq.beq_iff "eager" "explore"))
      (inl refl)

abbrev served_run : Result String
served_run =
    (walk_chain list_table upstream cfg "l2" none pair (some (open_step ∷ closed ∷ [])) request).0

served_by_open : served_run ≡ served "hello" 200 "open" "m2"
unfolding walk_chain walk visit gate attempt settle send prepare needs_vision has_image_content
    is_available status_of peek default_health key_of base_url_of call_with_retry forward_request
    record_success any lookup insert
served_by_open = refl

routed_request_is_served_safely_example :
    (by : Step) × IsIn by (open_step ∷ closed ∷ [])
    × (by.provider ≡ "open")
    × (by.model ≡ "m2")
    × (is_free hundredths facts list_table cfg "l2" breaker noon by ≡ true)
    × (is_blocked hundredths facts "planning" "l2" [] by ≡ false)
    × ((c : Step) × IsIn c pair
        × (by.provider ≡ c.provider)
        × (logical_model_name registry by.model ≡ logical_model_name registry c.model))
unfolding narrow_to_intents rules_of
routed_request_is_served_safely_example =
    routed_request_is_served_safely hundredths facts list_table upstream cfg "l2" none (scope [])
      planning noon pair (open_step ∷ closed ∷ []) start request "hello" 200 "open" "m2"
      registry_names_back reordered served_by_open

request_spares_bystanders_example :
    entry list_table
      (try_chain hundredths facts list_table upstream cfg "l2" none
        (scope [])
        planning
        pair
        true
        []
        request).0.1.breaker
      stranger
    ≡ entry list_table request.breaker stranger
request_spares_bystanders_example =
    request_spares_bystanders hundredths facts list_table upstream cfg "l2" none (scope []) planning
      pair true [] request stranger far-IsOther

preflight_warns_exactly_example :
    (near_limit hundredths facts pair 125000 ≡ true) ↔ All (Misfits hundredths facts 125000) pair
preflight_warns_exactly_example =
    preflight_warns_exactly hundredths facts closed (open_step ∷ []) 125000 (omega arith)
