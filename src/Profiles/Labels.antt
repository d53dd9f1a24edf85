-- ===== src/Profiles/Labels.antt =====
-- What the labels that `clean_labels` keeps are like.
use simple_lcp.Prelude.{
  some-inj, ℕ, suc, ◌+◌, ◌≤◌, String, ◌≡◌, ◌≢◌, refl, subst, inl, inr, Bool, true, false, ◌||◌,
  Option, none, some, List, [], ◌∷◌, ◌++◌, ◌==◌, string_eq, ltb, length, length-append, contains,
  All, Bool-cases, arith, if◌then◌else◌,
}
use simple_lcp.Router.Names.{strip}
use simple_lcp.Profiles.Fields.{
  Item, label, no_label, char_count, checked_label, keep_label, with_label, clean_labels,
}

-- No text twice.
abbrev Distinct : List String → Type 0
Distinct [] = Unit
Distinct (s ∷ ss) = (contains s ss ≡ false) × Distinct ss

abbrev IsLabel : String → Type 0
IsLabel s = (s ≢ "") × (char_count s ≤ 64)

abbrev pub IsLabels : List String → Type 0
IsLabels ss = All IsLabel ss × Distinct ss

contains-last :
    (s t : String) (ss : List String)
    → contains s ss ≡ false
    → t ≢ s
    → contains s (ss ++ t ∷ []) ≡ false
unfolding contains
contains-last s t [] h other = ground (arith, string_eq.beq_iff t s)
contains-last s t (u ∷ ss) h other = ground (arith, contains-last s t ss)

Distinct-last :
    (t : String) (ss : List String) → Distinct ss → contains t ss ≡ false → Distinct (ss ++ t ∷ [])
unfolding contains
Distinct-last t [] d h = (refl, tt)
Distinct-last t (s ∷ ss) (fresh, d) h = (
  contains-last s t ss fresh (λ e. ground (arith, string_eq.beq_iff s t)),
  Distinct-last t ss d (ground (arith, string_eq.beq_iff s t)),
)

All-last : (t : String) (ss : List String) → All IsLabel ss → IsLabel t → All IsLabel (ss ++ t ∷ [])
All-last t [] a l = (l, tt)
All-last t (s ∷ ss) (b, a) l = (b, All-last t ss a l)

keep_label-IsLabels :
    (t : String) (ss : List String)
    → IsLabel t
    → IsLabels ss
    → IsLabels (keep_label t ss) × (length (keep_label t ss) ≤ suc (length ss))
unfolding keep_label
keep_label-IsLabels t ss l (a, d) = elim (Bool-cases (contains t ss)) [
  | inl e ↦ rw e ((a, d), omega arith)
  | inr e ↦
      rw e ((All-last t ss a l, Distinct-last t ss d e), omega (arith, length-append ss (t ∷ [])))
]

pub let_through :
    (b : Bool) (s t : String) → (if b then none else some s) ≡ some t → (b ≡ false) × (s ≡ t)
let_through true s t h = cc
let_through false s t h = (refl, some-inj h)

checked_label-IsLabel : (s t : String) → checked_label s ≡ some t → IsLabel t
unfolding checked_label
checked_label-IsLabel s t h =
    let (allowed, same) =
      let_through (strip s == "" || ltb 64 (char_count (strip s))) (strip s) t h in
    subst (λ x. IsLabel x) same (λ e. ground (arith, string_eq.beq_iff (strip s) ""), ground arith)

with_label-IsLabels :
    (o : Option String) (cleaned ss : List String) (n : ℕ)
    (onward : List String → Option (List String))
    → ((t : String) → o ≡ some t → IsLabel t)
    → IsLabels cleaned
    → ((cs : List String)
        → IsLabels cs
        → onward cs ≡ some ss
        → IsLabels ss × (length ss ≤ length cs + n))
    → with_label o cleaned onward ≡ some ss
    → IsLabels ss × (length ss ≤ length cleaned + suc n)
unfolding with_label
with_label-IsLabels none cleaned ss n onward is_label l f h = cc
with_label-IsLabels (some t) cleaned ss n onward is_label l f h =
    let (kept, short) = keep_label-IsLabels t cleaned (is_label t refl) l in
    let (labels, few) = f (keep_label t cleaned) kept h in (labels, omega arith)

pub clean_labels-IsLabels :
    (items : List Item) (cleaned ss : List String)
    → IsLabels cleaned
    → clean_labels items cleaned ≡ some ss
    → IsLabels ss × (length ss ≤ length cleaned + length items)
unfolding clean_labels
clean_labels-IsLabels [] cleaned ss l h =
    subst (λ cs. IsLabels cs × (length cs ≤ length cleaned + 0)) (some-inj h) (l, omega arith)
clean_labels-IsLabels (no_label ∷ items) cleaned ss l h = cc
clean_labels-IsLabels (label s ∷ items) cleaned ss l h =
    with_label-IsLabels (checked_label s) cleaned ss (length items) (clean_labels items)
      (λ t e. checked_label-IsLabel s t e) l (λ cs k e. clean_labels-IsLabels items cs ss k e) h
