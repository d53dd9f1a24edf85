-- ===== src/Prelude/Sort.antt =====
-- Python's stable `sorted` by a Boolean order on the keys: an element goes before the first one that
-- does not come earlier. Membership, as a sum.
use mathlib.Core.Path.{◌≡◌, refl, sym, subst}
use mathlib.Core.Logic.{◌⊎◌, inl, inr}
use mathlib.Core.Bool.{Bool, true, false}
use mathlib.Core.List.{List, [], ◌∷◌, ◌++◌}
use native.Mathlib.Omega.{arith}
use simple_lcp.Prelude.Tests.{Bool-cases, if◌then◌else◌}
use simple_lcp.Prelude.Lists.{select}

module _ {A : Type 0} where
  abbrev pub IsIn : A → List A → Type 0
  IsIn x [] = ⊥
  IsIn x (y ∷ ys) = (x ≡ y) ⊎ IsIn x ys

  pub append-IsIn : (x : A) (xs ys : List A) → IsIn x (xs ++ ys) → IsIn x xs ⊎ IsIn x ys
  append-IsIn x [] ys h = inr h
  append-IsIn x (y ∷ xs) ys (inl e) = inl (inl e)
  append-IsIn x (y ∷ xs) ys (inr h) = elim (append-IsIn x xs ys h) [
    | inl l ↦ inl (inr l)
    | inr r ↦ inr r
  ]

  pub IsIn-append_left : (x : A) (xs ys : List A) → IsIn x xs → IsIn x (xs ++ ys)
  IsIn-append_left x (y ∷ xs) ys (inl e) = inl e
  IsIn-append_left x (y ∷ xs) ys (inr h) = inr (IsIn-append_left x xs ys h)
  IsIn-append_left x [] ys h = absurd h

  pub IsIn-append_right : (x : A) (xs ys : List A) → IsIn x ys → IsIn x (xs ++ ys)
  IsIn-append_right x [] ys h = h
  IsIn-append_right x (y ∷ xs) ys h = inr (IsIn-append_right x xs ys h)

  pub select-IsIn :
      (p : A → Bool) (x : A) (xs : List A) → IsIn x (select p xs) → IsIn x xs × (p x ≡ true)
  unfolding select
  select-IsIn p x [] h = absurd h
  select-IsIn p x (y ∷ ys) h = elim (Bool-cases (p y)) [
    | inl e ↦ elim (subst (λ b. IsIn x (if b then y ∷ select p ys else select p ys)) e h) [
      | inl same ↦ (inl same, subst (λ z. p z ≡ true) (sym same) e)
      | inr later ↦ let (i, t) = select-IsIn p x ys later in (inr i, t)
    ]
    | inr e ↦
        let (i, t) =
          select-IsIn p x ys
            (subst (λ b. IsIn x (if b then y ∷ select p ys else select p ys)) e h) in
        (inr i, t)
  ]

  pub IsIn-select :
      (p : A → Bool) (x : A) (xs : List A) → IsIn x xs → p x ≡ true → IsIn x (select p xs)
  unfolding select
  IsIn-select p x [] h t = absurd h
  IsIn-select p x (y ∷ ys) (inl e) t = rw (subst (λ z. p z ≡ true) e t) (inl e)
  IsIn-select p x (y ∷ ys) (inr h) t = elim (Bool-cases (p y)) [
    | inl e ↦ rw e (inr (IsIn-select p x ys h t))
    | inr e ↦ rw e (IsIn-select p x ys h t)
  ]

module _ {A : Type 0} (before : A → A → Bool) where
  unfoldable pub insert_sorted : A → List A → List A
  insert_sorted x [] = x ∷ []
  insert_sorted x (y ∷ ys) = if before y x then y ∷ insert_sorted x ys else x ∷ y ∷ ys

  unfoldable pub sort_by : List A → List A
  sort_by [] = []
  sort_by (x ∷ xs) = insert_sorted x (sort_by xs)

  -- No element comes after one that it should come before.
  abbrev pub IsSortedBy : List A → Type 0
  IsSortedBy [] = Unit
  IsSortedBy (x ∷ []) = Unit
  IsSortedBy (x ∷ y ∷ ys) = (before y x ≡ false) × IsSortedBy (y ∷ ys)

  insert_sorted-IsSortedBy :
      ((x y : A) → before x y ≡ true → before y x ≡ false)
      → (x : A) (xs : List A) → IsSortedBy xs
      → IsSortedBy (insert_sorted x xs)
  unfolding insert_sorted
  insert_sorted-IsSortedBy asymm x [] s = tt
  insert_sorted-IsSortedBy asymm x (y ∷ []) s = ground (arith, asymm y x)
  insert_sorted-IsSortedBy asymm x (y ∷ z ∷ zs) s =
      ground (arith, asymm y x, insert_sorted-IsSortedBy asymm x (z ∷ zs) s.1)

  pub sort_by-IsSortedBy :
      ((x y : A) → before x y ≡ true → before y x ≡ false) → (xs : List A) → IsSortedBy (sort_by xs)
  unfolding sort_by
  sort_by-IsSortedBy asymm [] = tt
  sort_by-IsSortedBy asymm (x ∷ xs) =
      insert_sorted-IsSortedBy asymm x (sort_by xs) (sort_by-IsSortedBy asymm xs)

  insert_sorted-IsIn :
      (z x : A) (xs : List A)
      → (IsIn z (insert_sorted x xs) → (z ≡ x) ⊎ IsIn z xs)
        × ((z ≡ x) ⊎ IsIn z xs → IsIn z (insert_sorted x xs))
  unfolding insert_sorted
  insert_sorted-IsIn z x [] = (λ h. h, λ h. h)
  insert_sorted-IsIn z x (y ∷ ys) = elim (Bool-cases (before y x)) [
    | inl e ↦
        let (to, from) = insert_sorted-IsIn z x ys in
        rw e (
          λ h. elim h [
            | inl same ↦ inr (inl same)
            | inr later ↦ elim (to later) [ inl s ↦ inl s | inr l ↦ inr (inr l) ]
          ],
          λ h. elim h [
            | inl same ↦ inr (from (inl same))
            | inr found ↦ elim found [ inl s ↦ inl s | inr l ↦ inr (from (inr l)) ]
          ],
        )
    | inr e ↦ rw e (λ h. h, λ h. h)
  ]

  -- Sorting keeps the elements.
  pub sort_by-IsIn :
      (z : A) (xs : List A) → (IsIn z (sort_by xs) → IsIn z xs) × (IsIn z xs → IsIn z (sort_by xs))
  unfolding sort_by
  sort_by-IsIn z [] = (λ h. h, λ h. h)
  sort_by-IsIn z (x ∷ xs) =
      let (to, from) = insert_sorted-IsIn z x (sort_by xs) in
      let (ihto, ihfrom) = sort_by-IsIn z xs in
      (
        λ h. elim (to h) [ inl s ↦ inl s | inr l ↦ inr (ihto l) ],
        λ h. from (elim h [ inl s ↦ inl s | inr l ↦ inr (ihfrom l) ]),
      )

  -- Nothing of a sorted list comes before its head, where coming later carries over.
  sorted-least :
      ((x y z : A) → before y x ≡ false → before z y ≡ false → before z x ≡ false)
      → (h z : A) (xs : List A) → IsSortedBy (h ∷ xs)
      → IsIn z xs
      → before z h ≡ false
  sorted-least trans h z (y ∷ ys) s (inl e) = subst (λ w. before w h ≡ false) (sym e) s.0
  sorted-least trans h z (y ∷ ys) s (inr i) = trans h y z s.0 (sorted-least trans y z ys s.1 i)
  sorted-least trans h z [] s i = absurd i

  head_of :
      ((x : A) → before x x ≡ false)
      → ((x y z : A) → before y x ≡ false → before z y ≡ false → before z x ≡ false)
      → (z : A) (ys : List A) → IsSortedBy ys
      → IsIn z ys
      → (h : A) × (rest : List A) × (ys ≡ h ∷ rest) × ((w : A) → IsIn w ys → before w h ≡ false)
  head_of irrefl trans z (h ∷ rest) s i = (
    h,
    rest,
    refl,
    λ w j. elim j [
      | inl e ↦ subst (λ v. before v h ≡ false) (sym e) (irrefl h)
      | inr l ↦ sorted-least trans h w rest s l
    ],
  )
  head_of irrefl trans z [] s i = absurd i

  -- The head of a sorted list is one that nothing else should come before.
  pub sort_by-head :
      ((x y : A) → before x y ≡ true → before y x ≡ false)
      → ((x : A) → before x x ≡ false)
      → ((x y z : A) → before y x ≡ false → before z y ≡ false → before z x ≡ false)
      → (z : A) (xs : List A) → IsIn z xs
      → (h : A) × (rest : List A) × (sort_by xs ≡ h ∷ rest)
        × IsIn h xs
        × ((w : A) → IsIn w xs → before w h ≡ false)
  sort_by-head asymm irrefl trans z xs i =
      let (h, rest, e, least) =
        head_of irrefl trans z (sort_by xs) (sort_by-IsSortedBy asymm xs)
          ((sort_by-IsIn z xs).1 i) in
      (
        h,
        rest,
        e,
        (sort_by-IsIn h xs).0 (subst (λ ys. IsIn h ys) (sym e) (inl refl)),
        λ w j. least w ((sort_by-IsIn w xs).1 j),
      )
