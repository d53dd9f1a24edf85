-- ===== src/Costs/Examples.antt =====
-- A response that reports its cache hits under the OpenAI name, in the way that
-- src/api/request_pipeline.py reads it.
use simple_lcp.Prelude.{String, ℕ, ◌≡◌, refl, Option, none, some, [], ◌∷◌, ◌++◌, string_eq}
use simple_lcp.Costs.Usage.{
  number, object, Members, nothing, member, get_member, split_dots, read_parts, read_path, as_count,
  candidates,
}
use simple_lcp.Costs.Reported.{IsSilent}

abbrev no_int : String → Option ℕ
no_int s = none

abbrev usage : Members
usage = member "prompt_tokens" (number 100) (
    member "prompt_tokens_details" (object (member "cached_tokens" (number 0) nothing))
      (member "cache_read_input_tokens" (number 7) nothing))

abbrev body : Members
body = member "usage" (object usage) nothing

found : get_member "usage" body ≡ object usage
unfolding get_member
found = refl

split :
    candidates none
    ≡ ("prompt_cache_hit_tokens" ∷ [])
      ++ "prompt_tokens_details.cached_tokens" ∷ "cache_read_input_tokens" ∷ []
unfolding candidates
split = refl

silent : IsSilent no_int usage "prompt_cache_hit_tokens"
unfolding as_count read_path read_parts split_dots get_member
silent = refl

reported : as_count no_int (read_path usage "prompt_tokens_details.cached_tokens") ≡ some 0
unfolding as_count read_path read_parts split_dots get_member
reported = refl
