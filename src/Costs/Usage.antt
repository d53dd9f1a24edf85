-- ===== src/Costs/Usage.antt =====
-- `_read_path` and `read_cache_hit_tokens` of src/api/request_pipeline.py. A number of the JSON answer
-- is held by its whole part, with its sign; `int` of a text is a parameter.
use Prim.Native.Char.{Char, code}
use simple_lcp.Prelude.{
  ℕ, String, Option, none, some, List, [], ◌∷◌, ◌==◌, string_eq, nat_beq, if◌then◌else◌,
}

mutual
  pub data Node : Type 0 where
    null : Node
    number : ℕ → Node
    below_zero : ℕ → Node
    word : String → Node
    sequence : Node
    object : Members → Node

  pub data Members : Type 0 where
    nothing : Members
    member : String → Node → Members → Members

-- node.get(part), where a missing key and null are the same
unfoldable pub get_member : String → Members → Node
get_member key nothing = null
get_member key (member k n more) = let later = get_member key more in if k == key then n else later

abbrev on_first : Char → List String → List String
on_first c [] = String.◌∷◌ c String.[] ∷ []
on_first c (s ∷ ss) = String.◌∷◌ c s ∷ ss

-- path.split(".")
unfoldable pub split_dots : String → List String
split_dots String.[] = "" ∷ []
split_dots (String.◌∷◌ c s) =
    let rest = split_dots s in if nat_beq (code c) 46 then "" ∷ rest else on_first c rest

-- the walk of `_read_path`; `null` is its None
unfoldable pub read_parts : List String → Node → Node
read_parts [] node = node
read_parts (part ∷ parts) (object ms) = read_parts parts (get_member part ms)
read_parts (part ∷ parts) _ = null

unfoldable pub read_path : Members → String → Node
read_path container path = read_parts (split_dots path) (object container)

-- max(0, int(value)), where `none` is no value, a TypeError or a ValueError
unfoldable pub as_count : (String → Option ℕ) → Node → Option ℕ
as_count int (number n) = some n
as_count int (below_zero n) = some 0
as_count int (word s) = int s
as_count int _ = none

-- _CACHE_HIT_FIELDS
abbrev cache_hit_fields : List String
cache_hit_fields =
    "prompt_cache_hit_tokens" ∷ "prompt_tokens_details.cached_tokens" ∷ "cache_read_input_tokens"
    ∷ []

-- the configured `hit_field` first, unless it is empty
unfoldable pub candidates : Option String → List String
candidates none = cache_hit_fields
candidates (some f) = if f == "" then cache_hit_fields else f ∷ cache_hit_fields

abbrev count_or : Option ℕ → ℕ → ℕ
count_or none later = later
count_or (some n) later = n

unfoldable pub first_count : (String → Option ℕ) → Members → List String → ℕ
first_count int usage [] = 0
first_count int usage (f ∷ fs) =
    count_or (as_count int (read_path usage f)) (first_count int usage fs)

-- the `usage` of a response body
abbrev usage_count : (String → Option ℕ) → Option String → Node → ℕ
usage_count int hit_field (object usage) = first_count int usage (candidates hit_field)
usage_count int hit_field _ = 0

unfoldable pub read_cache_hit_tokens : (String → Option ℕ) → Option String → Option Members → ℕ
read_cache_hit_tokens int hit_field none = 0
read_cache_hit_tokens int hit_field (some body) =
    usage_count int hit_field (get_member "usage" body)
