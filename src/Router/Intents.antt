-- ===== src/Router/Intents.antt =====
-- The task that `_narrow_to_intents` of src/api/router.py confines a request to.
use simple_lcp.Prelude.{
  String, ◌≡◌, refl, sym, subst, inl, inr, Bool, true, false, List, [], ◌∷◌, string_eq, select,
  contains, Bool-cases, IsIn, select-IsIn, IsIn-select,
}
use simple_lcp.Router.Names.{strip}
use simple_lcp.Router.Scores.{Floats}
use simple_lcp.Router.Request.{Detail, scored_tasks, narrowed, narrow_to_intents}

module _ (N : Floats) where
  abbrev declares : List String → String × N.F → Bool
  declares intents e = contains e.0 intents

  -- How a narrowed classification `d'` of `d` came about: it is the same, its task was scored and is
  -- declared, or its task is the first declared one and no declared task was scored.
  pub data Narrowing (d : Detail N) (i : String) (is : List String) : Detail N → Type 0 where
    within : contains (strip d.task) (i ∷ is) ≡ true → Narrowing d i is d
    scored :
        (t : String) (s : N.F)
        → IsIn (t, s) (scored_tasks N d.semantic)
        → contains t (i ∷ is) ≡ true
        → Narrowing d i is (record d { task = t; path = "intent_narrowed" })
    declared :
        ((e : String × N.F) → IsIn e (scored_tasks N d.semantic) → contains e.0 (i ∷ is) ≡ false)
        → Narrowing d i is (record d { task = i; path = "intent_declared" })

  refuted :
      (p : String × N.F → Bool) (es : List (String × N.F))
      → select p es ≡ []
      → (e : String × N.F) → IsIn e es
      → p e ≡ false
  refuted p es h e i = elim (Bool-cases (p e)) [
    | inl t ↦ absurd (subst (λ xs. IsIn e xs) h (IsIn-select p e es i t))
    | inr f ↦ f
  ]

  picked :
      (d : Detail N) (i : String) (is : List String) (es : List (String × N.F))
      → select (declares (i ∷ is)) (scored_tasks N d.semantic) ≡ es
      → Narrowing d i is (narrowed N d i es)
  unfolding narrowed
  picked d i is [] h = declared (refuted (declares (i ∷ is)) (scored_tasks N d.semantic) h)
  picked d i is ((t, s) ∷ more) h =
      let (j, e) =
        select-IsIn (declares (i ∷ is)) (t, s) (scored_tasks N d.semantic)
          (subst (λ xs. IsIn (t, s) xs) (sym h) (inl refl)) in
      scored t s j e

  -- A profile that declares intents is routed inside them: the task is declared already, or it is
  -- replaced by a declared one that the classifier scored, or, when it scored no declared one, by
  -- the first that is declared.
  narrow_stays_declared :
      (d : Detail N) (i : String) (is : List String)
      → Narrowing d i is (narrow_to_intents N d (i ∷ is))
  unfolding narrow_to_intents
  narrow_stays_declared d i is = elim (Bool-cases (contains (strip d.task) (i ∷ is))) [
    | inl e ↦ rw e (within e)
    | inr e ↦ rw e (picked d i is _ refl)
  ]
