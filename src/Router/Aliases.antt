-- ===== src/Router/Aliases.antt =====
-- The alias index of src/api/router.py: what the two passes of `_alias_to_logical` promise.
use simple_lcp.Prelude.{
  String, ◌≡◌, ◌≢◌, refl, ap, ◌∙◌, Bool, true, false, Option, none, some, List, [], ◌∷◌, ◌==◌,
  string_eq, lookup, lookup-insert, arith, if◌then◌else◌,
}
use simple_lcp.Router.Names.{
  defaulted, Registry, lower_text, strip, set_default, set_segment, each_mapping, pass_one,
  pass_two, alias_to_logical, unless_empty, by_key, mapped, logical_model_name,
}

abbrev Index : Type 0
Index = List (String × String)

-- `l` is the logical name under `k`.
abbrev Leads : String → String → Index → Type 0
Leads k l index = lookup k index ≡ some l

missing :
    (key k logical l : String) (index : Index)
    → lookup key index ≡ none
    → Leads k l index
    → (if key == k then some logical else lookup k index) ≡ some l
missing key k logical l index e h = ground (arith, string_eq.beq_iff key k)

defaulted-keeps :
    (key logical k l : String) (index : Index) (o : Option String)
    → lookup key index ≡ o
    → Leads k l index
    → Leads k l (defaulted key logical index o)
unfolding defaulted
defaulted-keeps key logical k l index none e h =
    lookup-insert key k logical index ∙ missing key k logical l index e h
defaulted-keeps key logical k l index (some held) e h = h

set_default-keeps :
    (key logical k l : String) (index : Index)
    → Leads k l index
    → Leads k l (set_default key logical index)
unfolding set_default
set_default-keeps key logical k l index h =
    defaulted-keeps key logical k l index (lookup key index) refl h

either-keeps :
    (t : Bool) (k l : String) (a b : Index)
    → Leads k l a
    → Leads k l b
    → Leads k l (if t then a else b)
either-keeps true k l a b p q = p
either-keeps false k l a b p q = q

set_segment-keeps :
    (logical side k l : String) (index : Index)
    → Leads k l index
    → Leads k l (set_segment logical side index)
unfolding set_segment
set_segment-keeps logical side k l index h =
    either-keeps _ k l _ index (set_default-keeps _ logical k l index h) h

each_segment-keeps :
    (logical : String) (sides : List (String × String)) (k l : String) (index : Index)
    → Leads k l index
    → Leads k l (each_mapping set_segment logical sides index)
unfolding each_mapping
each_segment-keeps logical [] k l index h = h
each_segment-keeps logical ((p, side) ∷ more) k l index h =
    each_segment-keeps logical more k l _ (set_segment-keeps logical side k l index h)

pass_two-keeps :
    (registry : Registry) (k l : String) (index : Index)
    → Leads k l index
    → Leads k l (pass_two registry index)
unfolding pass_two
pass_two-keeps [] k l index h = h
pass_two-keeps ((logical, e) ∷ more) k l index h =
    pass_two-keeps more k l _ (each_segment-keeps logical e.provider_mappings k l index h)

unless_no_model : (model x : String) → model ≢ "" → (if model == "" then model else x) ≡ x
unless_no_model model x named = ground (arith, string_eq.beq_iff model "")

named-mapped :
    (key l : String) (index : Index) → l ≢ "" → Leads key l index → mapped key index ≡ some l
unfolding mapped unless_empty
named-mapped key l index known h = rw h (ground (arith, string_eq.beq_iff l ""))

-- An explicit alias beats a derived one: a model ID whose lower-case form the first pass leads to a
-- logical name has that logical name, whatever last path segments the second pass adds.
explicit_alias_wins :
    (registry : Registry) (model l : String)
    → model ≢ ""
    → l ≢ ""
    → Leads (lower_text (strip model)) l (pass_one registry [])
    → logical_model_name registry model ≡ l
unfolding logical_model_name by_key alias_to_logical
explicit_alias_wins registry model l named known h =
    let found : lookup (lower_text (strip model)) (alias_to_logical registry) ≡ some l =
      pass_two-keeps registry (lower_text (strip model)) l (pass_one registry []) h in
    unless_no_model model _ named
    ∙ ap (by_key registry (lower_text (strip model)))
        (named-mapped _ l (alias_to_logical registry) known found)
