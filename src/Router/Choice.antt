-- ===== src/Router/Choice.antt =====
-- The model that `_choose_target_model` of src/api/router.py picks, and the task that
-- `_narrow_to_intents` confines the request to.
use simple_lcp.Prelude.{
  String, ◌≡◌, ◌≢◌, refl, ap, subst, ◌∙◌, ◌⊎◌, inl, inr, Bool, true, false, Option, some, none,
  List, [], ◌∷◌, map, string_eq, Bool-cases, arith, IsIn, sort_by-head,
}
use simple_lcp.Router.Scores.{
  Floats, Facts, score_model, ranked, explored, settle_on, choose_ranked, choose_target_model,
}

map-IsIn :
    {A B : Type 0} (f : A → B) (y : B) (xs : List A)
    → IsIn y (map f xs)
    → (x : A) × IsIn x xs × (y ≡ f x)
map-IsIn f y (x ∷ xs) (inl e) = (x, inl refl, e)
map-IsIn f y (x ∷ xs) (inr i) = let (z, j, e) = map-IsIn f y xs i in (z, inr j, e)
map-IsIn f y [] i = absurd i

IsIn-map : {A B : Type 0} (f : A → B) (x : A) (xs : List A) → IsIn x xs → IsIn (f x) (map f xs)
IsIn-map f x (y ∷ xs) (inl e) = inl (ap f e)
IsIn-map f x (y ∷ xs) (inr i) = inr (IsIn-map f x xs i)
IsIn-map f x [] i = absurd i

module _ (N : Floats) where
  -- x ranks before y: the comparison of the keys -x and -y
  abbrev pub outranks : N.F → N.F → Bool
  outranks x y = N.lt (N.neg x) (N.neg y)

  -- The comparison is a strict weak order, which the floats without the NaNs have.
  pub record IsOrdered : Type 0 where
    pub asymm : (x y : N.F) → outranks x y ≡ true → outranks y x ≡ false
    pub irrefl : (x : N.F) → outranks x x ≡ false
    pub trans : (x y z : N.F) → outranks y x ≡ false → outranks z y ≡ false → outranks z x ≡ false

  module _ (facts : Facts N) where
    -- Walking a set meets its elements and no others.
    pub record WalksAll : Type 0 where
      pub meets : (m : String) (ms : List String) → IsIn m ms → IsIn m (facts.set_order ms)
      pub only : (m : String) (ms : List String) → IsIn m (facts.set_order ms) → IsIn m ms

    -- `best` is a candidate that no candidate outranks.
    abbrev pub IsBest : List String → String → Option N.F → String → Type 0
    IsBest candidates task bias best =
        IsIn best candidates
        × ((c : String)
            → IsIn c candidates
            → outranks (score_model N facts c task bias) (score_model N facts best task bias)
              ≡ false)

    ranked-head :
        (candidates : List String) (task : String) (bias : Option N.F)
        → IsOrdered
        → WalksAll
        → (m : String) → IsIn m candidates
        → (best : String) × (rest : List (N.F × String)) × (ranked N facts candidates task bias
            ≡ (score_model N facts best task bias, best) ∷ rest)
          × IsBest candidates task bias best
    unfolding ranked
    ranked-head candidates task bias ord walks m i =
        let pair : String → N.F × String = λ m. (score_model N facts m task bias, m) in
        let (h, rest, e, in_pairs, least) =
          sort_by-head (λ (x y : N.F × String). outranks x.0 y.0) (λ x y. ord.asymm x.0 y.0)
            (λ x. ord.irrefl x.0) (λ x y z. ord.trans x.0 y.0 z.0) (pair m)
            (map pair (facts.set_order candidates))
            (IsIn-map pair m (facts.set_order candidates) (walks.meets m candidates i)) in
        let (best, j, same) = map-IsIn pair h (facts.set_order candidates) in_pairs in
        (
          best,
          rest,
          e ∙ ap (λ x. x ∷ rest) same,
          (
            walks.only best candidates j,
            λ c k.
                subst (λ (x : N.F × String). outranks (score_model N facts c task bias) x.0 ≡ false)
                  same
                  (least (pair c)
                    (IsIn-map pair c (facts.set_order candidates) (walks.meets c candidates k))),
          ),
        )

    not_explored :
        (scored : List (N.F × String)) (best : N.F) (task policy : String) (bias : Option N.F)
        → policy ≢ "explore"
        → explored N facts scored best task policy bias ≡ none
    unfolding explored
    not_explored scored best task policy bias other =
        ground (arith, string_eq.beq_iff policy "explore")

    settle_on-cases :
        (best : N.F) (model : String) (default_score : N.F) (default_logical : String)
        → ((settle_on N facts best model default_score default_logical ≡ model)
            × ((model ≡ default_logical)
                ⊎ (N.le best (N.add default_score (N.hundredths 5)) ≡ false)))
          ⊎ ((settle_on N facts best model default_score default_logical ≡ default_logical)
              × (N.le best (N.add default_score (N.hundredths 5)) ≡ true))
    unfolding settle_on
    settle_on-cases best model default_score default_logical =
        ground (arith, string_eq.beq_iff model default_logical)

    -- When the order of the floats by their negations is a strict weak one (which a NaN breaks), and
    -- walking a set meets its elements and no others: under a policy other than `explore`, and when
    -- some model is a candidate, there is a best one, which no candidate outranks. If it is below the
    -- floor no model is picked. If not, it is picked when it is the chain's default or above the
    -- hysteresis over the default's score, and otherwise the default is.
    pub choice-IsBest :
        (candidates : List String) (task policy : String) (min_score : N.F) (bias : Option N.F)
        (default_logical m : String)
        → IsOrdered
        → WalksAll
        → policy ≢ "explore"
        → IsIn m candidates
        → let choice =
            choose_target_model N facts candidates task policy min_score bias default_logical in
          (best : String) × IsBest candidates task bias best
          × (((N.lt (score_model N facts best task bias) min_score ≡ true) × (choice ≡ none))
              ⊎ ((N.lt (score_model N facts best task bias) min_score ≡ false)
                  × (((choice ≡ some best)
                        × ((best ≡ default_logical)
                            ⊎ (N.le (score_model N facts best task bias) (
                                  N.add
                                    (score_model N facts default_logical task bias)
                                    (N.hundredths 5))
                                ≡ false)))
                      ⊎ ((choice ≡ some default_logical)
                          × (N.le (score_model N facts best task bias) (
                                N.add
                                  (score_model N facts default_logical task bias)
                                  (N.hundredths 5))
                              ≡ true)))))
    unfolding choose_target_model choose_ranked
    choice-IsBest candidates task policy min_score bias default_logical m ord walks other i =
        let (best, rest, e, is_best) = ranked-head candidates task bias ord walks m i in
        let s = score_model N facts best task bias in
        let d = score_model N facts default_logical task bias in
        (
          best,
          is_best,
          rw (e, not_explored ((s, best) ∷ rest) s task policy bias other)
              (elim (Bool-cases (N.lt s min_score)) [
                | inl low ↦ rw low (inl (refl, refl))
                | inr high ↦ rw high (
                    inr (
                      refl,
                      elim (settle_on-cases s best d default_logical) [
                        | inl (kept, why) ↦ inl (ap some kept, why)
                        | inr (fell, near) ↦ inr (ap some fell, near)
                      ],
                    ))
              ]),
        )
