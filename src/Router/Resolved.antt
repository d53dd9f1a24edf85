-- ===== src/Router/Resolved.antt =====
-- What `_resolve_prefer` of src/api/router.py resolves to: a model that some step of the chain is of.
use simple_lcp.Prelude.{
  String, ◌≡◌, refl, inl, inr, Bool, true, false, some, List, [], ◌∷◌, ◌++◌, map, string_eq,
  contains, any, Bool-cases, arith, IsIn, if◌then◌else◌,
}
use simple_lcp.Chain.Forward.{Step}
use simple_lcp.Router.Names.{logical_model_name}
use simple_lcp.Router.Scores.{Floats, Facts, get_model_score}
use simple_lcp.Router.Rules.{
  Rule, Fired, Preference, Turn, found, passed, unmatched, is_wild, is_prefer, prefer, serves,
  below_gate, rule_target, fired_by, resume, resolve_prefer,
}
use simple_lcp.Router.Targets.{Uses}

abbrev pub actions : List Fired → List String
actions fs = map (λ (f : Fired). f.action) fs

-- "prefer" is the last entry that was added
fires :
    (fired : List Fired) (f : Fired)
    → f.action ≡ "prefer"
    → contains "prefer" (actions (fired ++ f ∷ [])) ≡ true
unfolding contains
fires [] f e = ground (arith, string_eq.beq_iff f.action "prefer")
fires (g ∷ fired) f e = ground (arith, fires fired f e)

module _ (N : Floats) (facts : Facts N) where
  witnessed :
      (p : Step → Bool) (chain : List Step)
      → any p chain ≡ true
      → (c : Step) × IsIn c chain × (p c ≡ true)
  unfolding any
  witnessed p [] h = cc
  witnessed p (c ∷ chain) h = elim (Bool-cases (p c)) [
    | inl e ↦ (c, inl refl, e)
    | inr e ↦ let (d, i, q) = witnessed p chain (ground arith) in (d, inr i, q)
  ]

  -- What a rule finds is a model that some step of the chain is of, and it is recorded as "prefer".
  abbrev IsServed : List Step → Turn N facts → Type 0
  IsServed chain (found target p action) =
      (action ≡ "prefer")
      × ((t : String) → target ≡ some t → (c : Step) × IsIn c chain × Uses N facts t c)
  IsServed chain (passed action) = Unit
  IsServed chain unmatched = Unit

  either-IsServed :
      (t : Bool) (chain : List Step) (a b : Turn N facts)
      → (t ≡ true → IsServed chain a)
      → IsServed chain b
      → IsServed chain (if t then a else b)
  either-IsServed true chain a b p q = p refl
  either-IsServed false chain a b p q = q

  serves-Uses :
      (r : Rule N) (c : Step) (t : String)
      → serves N facts r c ≡ true
      → some (logical_model_name facts.registry r.model) ≡ some t
      → Uses N facts t c
  unfolding serves
  serves-Uses r c t q e = ground (
    arith,
    string_eq.beq_iff (logical_model_name facts.registry c.model)
        (logical_model_name facts.registry r.model),
  )

  prefer-IsServed :
      (r : Rule N) (chain : List Step) (task : String)
      → IsServed chain (prefer N facts r chain task)
  unfolding prefer serves
  prefer-IsServed r chain task =
      either-IsServed (is_wild r.model) chain _ _
        (λ _.
          either-IsServed (any (rule_target N facts r) chain) chain _ _ (λ _. (refl, λ t e. cc)) tt)
        (either-IsServed
          (below_gate N facts r.min_score
            (get_model_score N facts (logical_model_name facts.registry r.model) task))
          chain _ _ (λ _. tt)
          (either-IsServed (any (serves N facts r) chain) chain _ _
            (λ h. (
              refl,
              λ t e.
                  let (c, i, q) = witnessed (serves N facts r) chain h in
                  (c, i, serves-Uses r c t q e),
            ))
            tt))

  -- A resolved model is one that some step of the chain is of, and "prefer" is among the actions.
  abbrev IsResolved : List Step → Preference N facts → Type 0
  IsResolved chain p =
      (t : String)
      → p.target ≡ some t
      → ((c : Step) × IsIn c chain × Uses N facts t c)
        × (contains "prefer" (actions p.fired) ≡ true)

  resume-IsResolved :
      (r : Rule N) (chain : List Step) (fired : List Fired)
      (onward : List Fired → Preference N facts) (t : Turn N facts)
      → IsServed chain t
      → ((fs : List Fired) → IsResolved chain (onward fs))
      → IsResolved chain (resume N facts r fired onward t)
  unfolding resume fired_by
  resume-IsResolved r chain fired onward (found target p action) (e, served) after t h =
      (served t h, fires fired (fired_by N facts r action) e)
  resume-IsResolved r chain fired onward (passed action) s after t h =
      after (fired ++ fired_by N facts r action ∷ []) t h
  resume-IsResolved r chain fired onward unmatched s after t h = after fired t h

  choose-IsResolved :
      (t : Bool) (chain : List Step) (a b : Preference N facts)
      → IsResolved chain a
      → IsResolved chain b
      → IsResolved chain (if t then a else b)
  choose-IsResolved true chain a b p q = p
  choose-IsResolved false chain a b p q = q

  pub resolve_prefer-IsResolved :
      (rules : List (Rule N)) (chain : List Step) (task profile : String) (fired : List Fired)
      → IsResolved chain (resolve_prefer N facts rules chain task profile fired)
  unfolding resolve_prefer
  resolve_prefer-IsResolved [] chain task profile fired t h = cc
  resolve_prefer-IsResolved (r ∷ rules) chain task profile fired t h =
      choose-IsResolved (is_prefer N facts r task profile) chain _ _
        (resume-IsResolved r chain fired (resolve_prefer N facts rules chain task profile)
          (prefer N facts r chain task) (prefer-IsServed r chain task)
          (resolve_prefer-IsResolved rules chain task profile))
        (resolve_prefer-IsResolved rules chain task profile fired) t h
