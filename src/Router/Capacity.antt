-- ===== src/Router/Capacity.antt =====
-- `_max_routable_context` of src/api/router.py, and the test of the context pre-flight of `try_chain`
-- in src/api/request_pipeline.py.
use simple_lcp.Prelude.{
  ℕ, ◌+◌, ◌<◌, max, ◌≡◌, ◌↔◌, Bool, true, false, ◌&&◌, List, [], ◌∷◌, ltb, nat_eq, All, arith,
}
use simple_lcp.Chain.Forward.{Step}
use simple_lcp.Router.Names.{logical_model_name}
use simple_lcp.Router.Scores.{
  Floats, Facts, context_window_for, fits_context, default_context_window, context_output_reserve,
}

module _ (N : Floats) (facts : Facts N) where
  window_of : Step → ℕ
  window_of s = context_window_for N facts (logical_model_name facts.registry s.model)

  -- max(ctxs)
  largest : Step → List Step → ℕ
  unfolding window_of
  largest s [] = window_of s
  largest s (t ∷ chain) = let rest = largest t chain in max (window_of s) rest

  unfoldable pub max_routable_context : List Step → ℕ
  unfolding largest
  max_routable_context [] = default_context_window
  max_routable_context (s ∷ chain) = largest s chain

  -- request_tokens > 0 and request_tokens + _CTX_OUTPUT_RESERVE > max_ctx
  unfoldable pub near_limit : List Step → ℕ → Bool
  near_limit chain tokens =
      ltb 0 tokens && ltb (max_routable_context chain) (tokens + context_output_reserve)

  -- The step's model cannot hold the request.
  abbrev pub Misfits : ℕ → Step → Type 0
  Misfits tokens s = fits_context N facts (logical_model_name facts.registry s.model) tokens ≡ false

  largest-Misfits :
      (s : Step) (chain : List Step) (tokens : ℕ)
      → 0 < tokens
      → (ltb (largest s chain) (tokens + context_output_reserve) ≡ true)
        ↔ All (Misfits tokens) (s ∷ chain)
  unfolding largest window_of fits_context
  largest-Misfits s [] tokens some_tokens = ground arith
  largest-Misfits s (t ∷ chain) tokens some_tokens =
      ground (arith, largest-Misfits t chain tokens some_tokens)

  -- For a request with tokens and a chain with steps, the pre-flight warns exactly if no model of the
  -- chain can hold the request and the reserve for its answer.
  pub preflight_warns_exactly :
      (s : Step) (chain : List Step) (tokens : ℕ)
      → 0 < tokens
      → (near_limit (s ∷ chain) tokens ≡ true) ↔ All (Misfits tokens) (s ∷ chain)
  unfolding near_limit max_routable_context
  preflight_warns_exactly s chain tokens some_tokens =
      ground (arith, largest-Misfits s chain tokens some_tokens)
