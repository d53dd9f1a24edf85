-- ===== src/Pipeline/ToolOrder.antt =====
-- `normalize_tools_for_cache` of src/api/request_pipeline.py: Python's stable `sorted` by name.
use mathlib.Core.List.{Perm}
use mathlib.Core.List.Perm
use Prim.Native.Char.{code}
use simple_lcp.Prelude.{
  String, ◌≡◌, refl, ap, ◌∙◌, inl, inr, Bool, true, false, List, [], ◌∷◌, arith, ltb, nat_beq,
  Bool-cases, if◌then◌else◌,
}
use simple_lcp.Pipeline.Message.{value}
use simple_lcp.Pipeline.Tools.{Tool}

-- s < t on texts: by code points, the shorter text first
unfoldable pub text_ltb : String → String → Bool
text_ltb s String.[] = false
text_ltb String.[] (String.◌∷◌ d t) = true
text_ltb (String.◌∷◌ c s) (String.◌∷◌ d t) =
    if nat_beq (code c) (code d) then text_ltb s t else ltb (code c) (code d)

-- t.get("function", {}).get("name", "")
unfoldable pub sort_key : Tool → String
sort_key t = elim t.fn_name [ value s ↦ s | _ ↦ "" ]

-- before the first tool that does not come earlier, so that equal names keep their order
unfoldable pub insert_tool : Tool → List Tool → List Tool
insert_tool x [] = x ∷ []
insert_tool x (y ∷ ys) =
    if text_ltb (sort_key y) (sort_key x) then y ∷ insert_tool x ys else x ∷ y ∷ ys

unfoldable pub normalize_tools_for_cache : List Tool → List Tool
normalize_tools_for_cache [] = []
normalize_tools_for_cache (t ∷ ts) = insert_tool t (normalize_tools_for_cache ts)

-- No tool comes before one with a smaller name.
abbrev IsSorted : List Tool → Type 0
IsSorted [] = Unit
IsSorted (x ∷ []) = Unit
IsSorted (x ∷ y ∷ ys) = (text_ltb (sort_key y) (sort_key x) ≡ false) × IsSorted (y ∷ ys)

text_ltb_asymm : (s t : String) → text_ltb s t ≡ true → text_ltb t s ≡ false
unfolding text_ltb
text_ltb_asymm String.[] String.[] h = refl
text_ltb_asymm String.[] (String.◌∷◌ d t) h = refl
text_ltb_asymm (String.◌∷◌ c s) String.[] h = cc
text_ltb_asymm (String.◌∷◌ c s) (String.◌∷◌ d t) h = ground (arith, text_ltb_asymm s t)

insert_tool-IsSorted : (x : Tool) (ts : List Tool) → IsSorted ts → IsSorted (insert_tool x ts)
unfolding insert_tool
insert_tool-IsSorted x [] s = tt
insert_tool-IsSorted x (y ∷ []) s = ground (arith, text_ltb_asymm (sort_key y) (sort_key x))
insert_tool-IsSorted x (y ∷ z ∷ zs) s =
    ground (arith, text_ltb_asymm (sort_key y) (sort_key x), insert_tool-IsSorted x (z ∷ zs) s.1)

insert_tool_first : (x : Tool) (ts : List Tool) → IsSorted (x ∷ ts) → insert_tool x ts ≡ x ∷ ts
unfolding insert_tool
insert_tool_first x [] s = refl
insert_tool_first x (y ∷ ys) s = rw s.0

insert_tool-perm : (x : Tool) (ts : List Tool) → Perm (insert_tool x ts) (x ∷ ts)
unfolding insert_tool
insert_tool-perm x [] = Perm.refl (x ∷ [])
insert_tool-perm x (y ∷ ys) = elim (Bool-cases (text_ltb (sort_key y) (sort_key x))) [
  | inl e ↦ rw e (Perm.trans (Perm.cons y (insert_tool-perm x ys)) (Perm.swap x y ys))
  | inr e ↦ rw e (Perm.refl (x ∷ y ∷ ys))
]

sort-IsSorted : (ts : List Tool) → IsSorted (normalize_tools_for_cache ts)
unfolding normalize_tools_for_cache
sort-IsSorted [] = tt
sort-IsSorted (t ∷ ts) = insert_tool-IsSorted t (normalize_tools_for_cache ts) (sort-IsSorted ts)

sort-perm : (ts : List Tool) → Perm (normalize_tools_for_cache ts) ts
unfolding normalize_tools_for_cache
sort-perm [] = Perm.refl []
sort-perm (t ∷ ts) =
    Perm.trans (insert_tool-perm t (normalize_tools_for_cache ts)) (Perm.cons t (sort-perm ts))

sort_of_sorted : (ts : List Tool) → IsSorted ts → normalize_tools_for_cache ts ≡ ts
unfolding normalize_tools_for_cache
sort_of_sorted [] s = refl
sort_of_sorted (x ∷ []) s = insert_tool_first x [] tt
sort_of_sorted (x ∷ y ∷ ys) s =
    ap (insert_tool x) (sort_of_sorted (y ∷ ys) s.1) ∙ insert_tool_first x (y ∷ ys) s

-- The tools are put in order of their names, none is lost or made up, and a second sorting changes
-- nothing.
normalize_tools_sorts :
    (ts : List Tool)
    → let sorted = normalize_tools_for_cache ts in
      IsSorted sorted × Perm sorted ts × (normalize_tools_for_cache sorted ≡ sorted)
normalize_tools_sorts ts = (
  sort-IsSorted ts,
  sort-perm ts,
  sort_of_sorted (normalize_tools_for_cache ts) (sort-IsSorted ts),
)
