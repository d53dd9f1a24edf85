-- ===== src/Chain/Walk.antt =====
-- The loop of `try_chain` of src/api/request_pipeline.py, after the router has been asked: its answer is
-- an argument, and `Router.Gateway` puts the two together. Log lines are left out.
use Prim.Native.String.{◌++◌ as join_text}
use simple_lcp.Prelude.{
  ℕ, ◌+◌, String, Bool, true, false, not, ◌&&◌, Option, none, some, List, [], ◌∷◌, ◌++◌, string_eq,
  ltb, length, any, if◌then◌else◌,
}
use simple_lcp.Breaker.Health.{is_healthy, is_degraded}
use simple_lcp.Breaker.Table.{HealthTable}
use simple_lcp.Breaker.Ops.{
  Breaker, is_available, status_of, record_success, record_failure, record_failover,
}
use simple_lcp.Pipeline.Errors.{ErrorKind, rate_limit, bad_request, internal, config, class_name}
use simple_lcp.Pipeline.Retry.{backoff, call_with_retry}
use simple_lcp.Reasoning.Store.{ReasoningStore}
use simple_lcp.Chain.Forward.{
  Step, Body, Config, Outcome, returned, raised, escaped, Upstream, forward_request,
}
use simple_lcp.Chain.Prepare.{base_url_of, key_of, prepare, needs_vision}

-- f"{provider_name}: {e}"
abbrev labelled : String → String → String
labelled p e = join_text p (join_text ": " e)

-- '; '.join(errors)
unfoldable pub joined : List String → String
joined [] = ""
joined (e ∷ []) = e
joined (e ∷ f ∷ es) = join_text e (join_text "; " (joined (f ∷ es)))

-- f"Provider {provider_name} rejected the request as invalid: {e}"
abbrev refusal : String → String → String
refusal p e = join_text "Provider " (join_text p (join_text " rejected the request as invalid: " e))

-- f"All providers failed for {profile_name}: {'; '.join(errors)}"
abbrev pub failure : String → List String → String
failure profile es =
    join_text "All providers failed for " (join_text profile (join_text ": " (joined es)))

-- What `try_chain` returns or raises. `rejected` and `all_failed` are AllProvidersFailedError;
-- `index_error` and `crashed` are exceptions that it does not mean to raise.
pub data Result (R : Type 0) : Type 0 where
  served : R → ℕ → String → String → Result R
  rejected : String → Result R
  all_failed : String → Result R
  index_error crashed : Result R

pub data Verdict (R : Type 0) : Type 0 where
  stop : Result R → Verdict R
  go_on : Verdict R

-- except (ProviderInternalError, ProviderRateLimitError)
abbrev is_retryable : {R : Type 0} → Outcome R → Bool
is_retryable (raised internal m) = true
is_retryable (raised rate_limit m) = true
is_retryable _ = false

module _ (T : HealthTable) (U : Upstream) (cfg : Config) (profile : String)
    (session : Option String) where
  pub record State : Type 0 where
    pub breaker : Breaker T
    pub store : ReasoningStore
    pub world : U.World
    pub body : Body
    pub errors : List String

  -- _has_healthy_alternative(cb, chain, profile_name, i, config), over the steps after i
  unfoldable pub has_healthy_alternative : Breaker T → List Step → Bool
  has_healthy_alternative b rest =
      any (λ (s : Step). is_healthy (status_of T b (key_of cfg profile s))) rest

  unfoldable add_error : State → String → State
  add_error s e = record s { errors = s.errors ++ e ∷ [] }

  -- The failover event, logged when a next provider exists: the test is on the length of the
  -- profile's own chain, the provider is read from the chain that is walked.
  unfoldable pub fail_over :
      ℕ → ℕ → Step → List Step → ErrorKind → String → State → Verdict U.Response × State
  fail_over chain_len i step rest kind message s =
      if ltb (i + 1) chain_len
      then elim rest [
        | [] ↦ (stop index_error, s)
        | next ∷ more ↦ (
          go_on,
          record s {
            breaker = record_failover T s.breaker (record {
              profile = profile;
              from_provider = step.provider;
              to_provider = next.provider;
              reason = class_name kind;
              error_message = some message;
              request_id = none;
            });
          },
        )
      ]
      else (go_on, s)

  unfoldable pub blame : Step → ErrorKind → String → State → State
  blame step kind message s = record s {
    breaker =
        record_failure T s.breaker (key_of cfg profile step) (some (class_name kind)) (some message)
          (U.now s.world);
  }

  -- the handlers of the call's outcome
  unfoldable pub settle :
      ℕ → ℕ → Step → List Step → Outcome U.Response → State → Verdict U.Response × State
  unfolding fail_over blame add_error
  settle chain_len i step rest (returned r status) s = (
    stop (served r status step.provider step.model),
    record s { breaker = record_success T s.breaker (key_of cfg profile step) (U.now s.world) },
  )
  settle chain_len i step rest (raised bad_request message) s =
      (stop (rejected (refusal step.provider message)), s)
  settle chain_len i step rest (raised config message) s =
      fail_over chain_len i step rest config message (add_error s (labelled step.provider message))
  settle chain_len i step rest (raised kind message) s =
      fail_over chain_len i step rest kind message
        (add_error (blame step kind message s) (labelled step.provider message))
  settle chain_len i step rest escaped s = (stop crashed, s)

  pause : ℕ → U.World → U.World
  pause k w = U.sleep (backoff cfg.retry k (U.draw w)) w

  -- the request to one step, with its retries
  unfoldable pub send : Step → Body → U.World → Outcome U.Response × U.World
  unfolding pause
  send step body w =
      call_with_retry is_retryable (forward_request U cfg step (base_url_of cfg step) body session)
        cfg.retry pause w

  unfoldable pub attempt : ℕ → ℕ → Step → List Step → State → Verdict U.Response × State
  attempt chain_len i step rest s =
      let (body, store) = prepare cfg step s.body (U.now s.world).time s.store in
      let (outcome, world) = send step body s.world in
      settle chain_len i step rest outcome (record s { body = body; store = store; world = world })

  unfoldable pub gate :
      ℕ → ℕ → Step → List Step → Bool × Breaker T → State → Verdict U.Response × State
  unfolding attempt add_error
  gate chain_len i step rest (available, b) s =
      let s' = record s { breaker = b } in
      if not available
      then (go_on, add_error s' (labelled step.provider "circuit breaker open"))
      else if is_degraded (status_of T b (key_of cfg profile step))
          && has_healthy_alternative b rest
      then (go_on, add_error s' (labelled step.provider "degraded (healthy alternative available)"))
      else attempt chain_len i step rest s'

  -- one turn of the loop
  unfoldable pub visit : ℕ → ℕ → Step → List Step → State → Verdict U.Response × State
  unfolding gate add_error
  visit chain_len i step rest s =
      if needs_vision s.body && not (cfg.supports_vision step.model)
      then (
        go_on,
        add_error s (
            labelled (join_text step.provider (join_text "/" step.model))
              "model does not support vision/image input"),
      )
      else gate chain_len i step rest
          (is_available T s.breaker (key_of cfg profile step) (U.now s.world)) s

  unfoldable pub walk : ℕ → ℕ → List Step → State → Result U.Response × State
  walk chain_len i [] s = (all_failed (failure profile s.errors), s)
  walk chain_len i (step ∷ rest) s =
      let (v, s') = visit chain_len i step rest s in
      let onward = walk chain_len (i + 1) rest s' in elim v [ stop r ↦ (r, s') | go_on ↦ onward ]

  -- `if reordered: chain = reordered`
  abbrev pub chosen : List Step → Option (List Step) → List Step
  chosen chain none = chain
  chosen chain (some []) = chain
  chosen chain (some (s ∷ ss)) = s ∷ ss

  unfoldable pub walk_chain : List Step → Option (List Step) → State → Result U.Response × State
  walk_chain chain reordered s = walk (length chain) 0 (chosen chain reordered) s
