-- ===== src/Pipeline/Tools.antt =====
-- `strip_forbidden_tools` of src/api/request_pipeline.py.
use simple_lcp.Prelude.{
  ◌+◌, String, ◌≡◌, refl, Bool, false, not, ◌||◌, Option, none, some, List, [], ◌∷◌, string_eq,
  arith, length, map, select, contains, All, if◌then◌else◌,
}
use simple_lcp.Pipeline.Message.{Field, absent, null, value, is_empty}

-- A tool definition: `function.name`, absent if either key is, and all else.
pub record Tool : Type 0 where
  pub fn_name : Field String
  pub body : String

-- t.get("function", {}).get("name", default); a null name reads as the text of None here
abbrev tool_name : String → Tool → Field String
tool_name d t = elim t.fn_name [ absent ↦ value d | null ↦ null | value s ↦ value s ]

-- name in forbidden
abbrev is_forbidden : List String → Tool → Bool
is_forbidden forbidden t = elim (tool_name "" t) [ value s ↦ contains s forbidden | _ ↦ false ]

abbrev tools_of : Field (List Tool) → List Tool
tools_of (value ts) = ts
tools_of _ = []

-- The tools of the body that is sent on, and the names that were blocked. `none` forbids all.
unfoldable strip_forbidden_tools :
    Field (List Tool) → Option (List String) → Field (List Tool) × List (Field String)
strip_forbidden_tools tools none =
    if is_empty (tools_of tools)
    then (tools, [])
    else (value [], map (tool_name "unknown") (tools_of tools))
strip_forbidden_tools tools (some forbidden) =
    if is_empty forbidden || is_empty (tools_of tools) then (tools, []) else (
      value (select (λ t. not (is_forbidden forbidden t)) (tools_of tools)),
      map (tool_name "") (select (is_forbidden forbidden) (tools_of tools)),
    )

length-select_both :
    (p : Tool → Bool) (ts : List Tool)
    → length (select (λ t. not (p t)) ts) + length (map (tool_name "") (select p ts)) ≡ length ts
unfolding select
length-select_both p [] = refl
length-select_both p (t ∷ ts) = ground (arith, length-select_both p ts)

select-allowed :
    (forbidden : List String) (ts : List Tool)
    → All (λ t. is_forbidden forbidden t ≡ false) (select (λ t. not (is_forbidden forbidden t)) ts)
unfolding select
select-allowed forbidden [] = tt
select-allowed forbidden (t ∷ ts) = ground (arith, select-allowed forbidden ts)

none_forbidden : (ts : List Tool) → All (λ t. is_forbidden [] t ≡ false) ts
unfolding contains
none_forbidden [] = tt
none_forbidden (t ∷ ts) = ground (arith, none_forbidden ts)

-- Under a list of forbidden names every tool that is sent on is allowed, and the tools sent on and
-- the names blocked make up as many as there were.
strip_forbidden_tools_exact :
    (ts : List Tool) (forbidden : List String)
    → let (sent, blocked) = strip_forbidden_tools (value ts) (some forbidden) in
      All (λ t. is_forbidden forbidden t ≡ false) (tools_of sent)
      × (length (tools_of sent) + length blocked ≡ length ts)
unfolding strip_forbidden_tools
strip_forbidden_tools_exact ts [] = (none_forbidden ts, omega arith)
strip_forbidden_tools_exact [] (f ∷ fs) = (tt, refl)
strip_forbidden_tools_exact (t ∷ ts) (f ∷ fs) =
    (select-allowed (f ∷ fs) (t ∷ ts), length-select_both (is_forbidden (f ∷ fs)) (t ∷ ts))
