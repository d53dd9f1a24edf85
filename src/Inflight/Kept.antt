-- ===== src/Inflight/Kept.antt =====
-- What the registry of src/api/inflight.py holds: exactly the requests that began and have not ended,
-- less those that were swept, and what its snapshot shows of them.
use simple_lcp.Prelude.{
  ℕ, ◌+◌, suc, String, ◌≡◌, ◌≢◌, refl, ap, ◌∙◌, ◌↔◌, inl, inr, Bool, true, false, Option, none,
  some, List, [], ◌∷◌, map, ◌==◌, string_eq, lookup, insert, remove, length, count_if, IsIn,
  IsSortedBy, sort_by-IsSortedBy, sort_by-IsIn, Bool-cases, arith, if◌then◌else◌, Unique,
}
use simple_lcp.Router.Scores.{Floats}
use simple_lcp.Inflight.Live.{
  Running, Entries, Row, begin, end, is_stale, drop_stale, sweep, row, snapshot, count,
}

removed-missing :
    {V : Type 0} (k : String) (m : List (String × V)) → lookup k m ≡ none → remove k m ≡ m
unfolding remove lookup
removed-missing k [] h = refl
removed-missing k ((j, w) ∷ m) h = ground (arith, removed-missing k m)

length-inserted :
    {V : Type 0} (k : String) (v : V) (m : List (String × V))
    → lookup k m ≡ none
    → length (insert k v m) ≡ suc (length m)
unfolding insert lookup
length-inserted k v [] h = refl
length-inserted k v ((j, w) ∷ m) h = ground (arith, length-inserted k v m)

removed-inserted :
    {V : Type 0} (k : String) (v : V) (m : List (String × V))
    → lookup k m ≡ none
    → remove k (insert k v m) ≡ m
unfolding remove insert lookup
removed-inserted k v [] h = ground (arith, string_eq.beq_iff k k)
removed-inserted k v ((j, w) ∷ m) h =
    ground (arith, string_eq.beq_iff j k, removed-inserted k v m, removed-missing k m)

module _ (N : Floats) where
  unless_empty :
      (token : String)
      → token ≢ ""
      → (a b c : Entries N) → b ≡ c
      → (if token == "" then a else b) ≡ c
  unless_empty token named a b c e = ground (arith, string_eq.beq_iff token "")

  -- A request that began under a new token, which is not the empty text, and ended leaves the registry
  -- as it was before it, and in between it is one more.
  end-begin :
      (token : String) (now : N.F) (profile model provider : String) (prompt_tokens : ℕ)
      (stream : Bool) (conversation_id : Option String) (tools : ℕ) (entries : Entries N)
      → token ≢ ""
      → lookup token entries ≡ none
      → let began =
          begin N token now profile model provider prompt_tokens stream conversation_id tools
            entries in
        (end N token began ≡ entries) × (count N began ≡ suc (count N entries))
  unfolding end begin count
  end-begin token now profile model provider prompt_tokens stream conversation_id tools entries
        named new =
      (
        unless_empty token named _ _ entries (removed-inserted token _ entries new),
        length-inserted token _ entries new,
      )

  lookup-drop_stale-none :
      (cutoff : N.F) (j : String) (entries : Entries N)
      → lookup j entries ≡ none
      → lookup j (drop_stale N cutoff entries) ≡ none
  unfolding drop_stale lookup
  lookup-drop_stale-none cutoff j [] h = refl
  lookup-drop_stale-none cutoff j ((i, r) ∷ entries) h =
      ground (arith, lookup-drop_stale-none cutoff j entries)

  -- the entry, unless it is stale
  abbrev unless_stale : N.F → Option (Running N) → Option (Running N)
  unless_stale cutoff none = none
  unless_stale cutoff (some r) = if N.lt r.started_at cutoff then none else some r

  lookup-drop_stale :
      (cutoff : N.F) (j : String) (entries : Entries N)
      → Unique entries
      → lookup j (drop_stale N cutoff entries) ≡ unless_stale cutoff (lookup j entries)
  unfolding drop_stale lookup is_stale
  lookup-drop_stale cutoff j [] u = refl
  lookup-drop_stale cutoff j ((i, r) ∷ entries) u = elim (Bool-cases (N.lt r.started_at cutoff)) [
    | inl e ↦ rw e (
        ground (
          arith,
          string_eq.beq_iff i j,
          lookup-drop_stale cutoff j entries u.1,
          lookup-drop_stale-none cutoff i entries u.0,
        ))
    | inr e ↦ rw e (
        ground (
          arith,
          string_eq.beq_iff i j,
          lookup-drop_stale cutoff j entries u.1,
          lookup-drop_stale-none cutoff i entries u.0,
        ))
  ]

  length-drop_stale :
      (cutoff : N.F) (entries : Entries N)
      → count_if (is_stale N cutoff) entries + length (drop_stale N cutoff entries) ≡ length entries
  unfolding drop_stale count_if
  length-drop_stale cutoff [] = refl
  length-drop_stale cutoff (e ∷ entries) = elim (Bool-cases (is_stale N cutoff e)) [
    | inl h ↦ rw h (omega (arith, length-drop_stale cutoff entries))
    | inr h ↦ rw h (omega (arith, length-drop_stale cutoff entries))
  ]

  -- A sweep drops the requests that began before its cutoff and no others, and answers how many these
  -- are.
  sweep_drops_stale :
      (now max_age : N.F) (entries : Entries N) (j : String)
      → Unique entries
      → let (dropped, left) = sweep N now max_age entries in
        (lookup j left ≡ unless_stale (N.sub now max_age) (lookup j entries))
        × (dropped + count N left ≡ count N entries)
  unfolding sweep count
  sweep_drops_stale now max_age entries j u = (
    lookup-drop_stale (N.sub now max_age) j entries u,
    length-drop_stale (N.sub now max_age) entries,
  )

  map-IsIn :
      {A B : Type 0} (f : A → B) (y : B) (xs : List A)
      → (IsIn y (map f xs) → (x : A) × IsIn x xs × (y ≡ f x))
        × ((x : A) × IsIn x xs × (y ≡ f x) → IsIn y (map f xs))
  map-IsIn f y [] = (λ i. absurd i, λ (x, i, e). absurd i)
  map-IsIn f y (z ∷ xs) =
      let (to, from) = map-IsIn f y xs in
      (
        λ i. elim i [ inl e ↦ (z, inl refl, e) | inr j ↦ let (x, k, e) = to j in (x, inr k, e) ],
        λ (x, i, e). elim i [ inl same ↦ inl (e ∙ ap f same) | inr j ↦ inr (from (x, j, e)) ],
      )

  -- When the comparison of the times is asymmetric: the snapshot has one row for each running request,
  -- with its elapsed time, and none that has run longer comes after one that has run less long.
  snapshot_longest_first :
      (round_1 : N.F → N.F) (now : N.F) (entries : Entries N) (r : Row N)
      → ((x y : N.F) → N.lt x y ≡ true → N.lt y x ≡ false)
      → IsSortedBy (λ (x y : Row N). N.lt y.elapsed x.elapsed) (snapshot N round_1 now entries)
        × (IsIn r (snapshot N round_1 now entries)
            ↔ ((e : String × Running N) × IsIn e entries × (r ≡ row N round_1 now e)))
  unfolding snapshot
  snapshot_longest_first round_1 now entries r asymm =
      let before : Row N → Row N → Bool = λ x y. N.lt y.elapsed x.elapsed in
      let rows = map (row N round_1 now) entries in
      let (to, from) = map-IsIn (row N round_1 now) r entries in
      (
        sort_by-IsSortedBy before (λ x y. asymm y.elapsed x.elapsed) rows,
        (λ i. to ((sort_by-IsIn before r rows).0 i), λ w. (sort_by-IsIn before r rows).1 (from w)),
      )
