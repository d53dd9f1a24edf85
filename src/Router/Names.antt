-- ===== src/Router/Names.antt =====
-- The names of models in src/api/router.py: `normalize_model_id`, the alias index of the registry,
-- and the three translations. The registry is a value: its cache and the table that it is loaded
-- from are left out. `lower` changes the ASCII letters only.
use Prim.Native.Char.{Char, code}
use simple_lcp.Prelude.{
  String, Bool, false, ◌||◌, Option, none, some, List, [], ◌∷◌, ◌==◌, string_eq, nat_beq, lookup,
  insert, if◌then◌else◌,
}
use simple_lcp.Pipeline.Errors.{lstrip}
use simple_lcp.Pipeline.Normalize.{rstrip}

-- the letter of the second alphabet that stands where `c` stands in the first
unfoldable pub shift : String → String → Char → Char
shift String.[] _ c = c
shift (String.◌∷◌ u us) String.[] c = c
shift (String.◌∷◌ u us) (String.◌∷◌ l ls) c = if nat_beq (code u) (code c) then l else shift us ls c

-- s.lower()
unfoldable pub lower_text : String → String
unfolding shift
lower_text String.[] = String.[]
lower_text (String.◌∷◌ c s) =
    String.◌∷◌ (shift "ABCDEFGHIJKLMNOPQRSTUVWXYZ" "abcdefghijklmnopqrstuvwxyz" c) (lower_text s)

unfoldable pub strip : String → String
strip s = rstrip (lstrip s)

has_slash : String → Bool
has_slash String.[] = false
has_slash (String.◌∷◌ c s) = nat_beq (code c) 47 || has_slash s

-- s.rsplit("/", 1)[-1]
unfoldable pub last_segment : String → String
unfolding has_slash
last_segment String.[] = String.[]
last_segment (String.◌∷◌ c s) =
    let tail = last_segment s in
    if has_slash s then tail else if nat_beq (code c) 47 then s else String.◌∷◌ c s

-- s[len(p):] if s.startswith(p)
without_prefix : String → String → Option String
without_prefix String.[] s = some s
without_prefix (String.◌∷◌ c p) String.[] = none
without_prefix (String.◌∷◌ c p) (String.◌∷◌ d s) =
    let rest = without_prefix p s in if nat_beq (code c) (code d) then rest else none

-- s.lstrip("/")
drop_slashes : String → String
drop_slashes String.[] = String.[]
drop_slashes (String.◌∷◌ c s) =
    let rest = drop_slashes s in if nat_beq (code c) 47 then rest else String.◌∷◌ c s

-- the path prefix of a llama.cpp model file
drop_path : String → String
unfolding without_prefix drop_slashes last_segment
drop_path s =
    last_segment (elim (without_prefix "/models/" s) [ some rest ↦ rest | none ↦ drop_slashes s ])

-- name[:-5] if name.lower().endswith(".gguf")
drop_gguf : String → String
drop_gguf String.[] = String.[]
drop_gguf (String.◌∷◌ c s) =
    let rest = drop_gguf s in
    if lower_text (String.◌∷◌ c s) == ".gguf" then "" else String.◌∷◌ c rest

unfoldable pub normalize_model_id : String → String
unfolding drop_path drop_gguf
normalize_model_id model =
    if model == "" then model else lower_text (strip (drop_gguf (drop_path (strip model))))

-- One registry entry: the key of its benchmark scores, and {provider: provider-side model ID}.
pub record Entry : Type 0 where
  pub benchmark_key : String
  pub provider_mappings : List (String × String)

abbrev pub Registry : Type 0
Registry = List (String × Entry)

unfoldable pub defaulted :
    String → String → List (String × String) → Option String → List (String × String)
defaulted key logical index none = insert key logical index
defaulted key logical index (some held) = index

-- index.setdefault(key, logical)
unfoldable pub set_default : String → String → List (String × String) → List (String × String)
unfolding defaulted
set_default key logical index = defaulted key logical index (lookup key index)

-- the setdefault of one provider-side ID, in pass 1
unfoldable set_alias : String → String → List (String × String) → List (String × String)
set_alias logical side index =
    if side == "" then index else set_default (lower_text side) logical index

-- the setdefault of its last path segment, in pass 2
unfoldable pub set_segment : String → String → List (String × String) → List (String × String)
unfolding has_slash
set_segment logical side index =
    if has_slash side
    then set_default (lower_text (strip (last_segment side))) logical index
    else index

module _ (step : String → String → List (String × String) → List (String × String)) where
  unfoldable pub each_mapping :
      String → List (String × String) → List (String × String) → List (String × String)
  each_mapping logical [] index = index
  each_mapping logical ((provider, side) ∷ more) index =
      each_mapping logical more (step logical side index)

-- pass 1 for one entry
unfoldable pub explicit_aliases : String → Entry → List (String × String) → List (String × String)
unfolding set_alias each_mapping
explicit_aliases logical e index =
    each_mapping set_alias logical e.provider_mappings
      (set_alias logical e.benchmark_key (insert (lower_text logical) logical index))

unfoldable pub pass_one : Registry → List (String × String) → List (String × String)
pass_one [] index = index
pass_one ((logical, e) ∷ more) index = pass_one more (explicit_aliases logical e index)

unfoldable pub pass_two : Registry → List (String × String) → List (String × String)
unfolding set_segment each_mapping
pass_two [] index = index
pass_two ((logical, e) ∷ more) index =
    pass_two more (each_mapping set_segment logical e.provider_mappings index)

unfoldable pub alias_to_logical : Registry → List (String × String)
alias_to_logical registry = pass_two registry (pass_one registry [])

unfoldable pub unless_empty : Option String → Option String
unless_empty none = none
unless_empty (some logical) = if logical == "" then none else some logical

-- index.get(key), where the empty name counts as no name
unfoldable pub mapped : String → List (String × String) → Option String
unfolding unless_empty
mapped key index = unless_empty (lookup key index)

-- the last path segment of the key, then the normalised key
by_segment : Registry → String → Option String → String
by_segment registry key (some logical) = logical
by_segment registry key none = normalize_model_id key

unfoldable pub by_key : Registry → String → Option String → String
unfolding has_slash by_segment
by_key registry key (some logical) = logical
by_key registry key none =
    if has_slash key
    then by_segment registry key (mapped (strip (last_segment key)) (alias_to_logical registry))
    else normalize_model_id key

unfoldable pub logical_model_name : Registry → String → String
unfolding mapped by_key
logical_model_name registry model =
    let key = lower_text (strip model) in
    if model == "" then model else by_key registry key (mapped key (alias_to_logical registry))

unfoldable pub benchmark_model_name : Registry → String → String
benchmark_model_name registry logical = elim (lookup logical registry) [
  | none ↦ logical
  | some e ↦ e.benchmark_key
]

unfoldable pub provider_model_name : Registry → String → String → String
provider_model_name registry logical provider = elim (lookup logical registry) [
  | none ↦ logical
  | some e ↦ elim (lookup provider e.provider_mappings) [ none ↦ logical | some side ↦ side ]
]
