-- ===== src/Prelude/Dict.antt =====
-- Python's `dict` as an association list in insertion order: a write to a present key keeps its
-- place, a write to a new one goes to the end.
use mathlib.Core.Path.{◌≡◌, refl}
use mathlib.Core.Bool.{Bool}
use mathlib.Core.List.{List, [], ◌∷◌}
use mathlib.Core.Option.{Option, none, some}
use native.Mathlib.Omega.{arith}
use simple_lcp.Prelude.Tests.{Eq, ◌==◌, if◌then◌else◌}
use simple_lcp.Prelude.Lists.{All}

module _ {ℓ κ} {K : Type ℓ} {V : Type κ} ⦃e : Eq K⦄ where
  -- d.get(k)
  unfoldable pub lookup : K → List (K × V) → Option V
  lookup k [] = none
  lookup k ((j, v) ∷ m) = if j == k then some v else lookup k m

  -- d.pop(k, None)
  unfoldable pub remove : K → List (K × V) → List (K × V)
  remove k [] = []
  remove k ((j, w) ∷ m) = if j == k then remove k m else (j, w) ∷ remove k m

  -- d[k] = v
  unfoldable pub insert : K → V → List (K × V) → List (K × V)
  insert k v [] = (k, v) ∷ []
  insert k v (held ∷ m) = if held.0 == k then (held.0, v) ∷ m else held ∷ insert k v m

  -- the entries whose key does not satisfy `p`
  unfoldable pub drop_keys : (K → Bool) → List (K × V) → List (K × V)
  drop_keys p [] = []
  drop_keys p ((j, w) ∷ m) = if p j then drop_keys p m else (j, w) ∷ drop_keys p m

  pub lookup-insert :
      (to from : K) (v : V) (d : List (K × V))
      → lookup from (insert to v d) ≡ (if to == from then some v else lookup from d)
  unfolding insert lookup
  lookup-insert to from v [] = refl
  lookup-insert to from v ((i, w) ∷ d) =
      ground (arith, lookup-insert to from v d, e.beq_iff i from, e.beq_iff i to, e.beq_iff to from)

  pub lookup-remove :
      (k j : K) (m : List (K × V)) → lookup j (remove k m) ≡ (if k == j then none else lookup j m)
  unfolding lookup remove
  lookup-remove k j [] = ground arith
  lookup-remove k j ((i, w) ∷ m) =
      ground (arith, e.beq_iff k j, e.beq_iff i k, e.beq_iff i j, lookup-remove k j m)

  pub lookup-drop_keys :
      (p : K → Bool) (j : K) (m : List (K × V))
      → lookup j (drop_keys p m) ≡ (if p j then none else lookup j m)
  unfolding lookup drop_keys
  lookup-drop_keys p j [] = ground arith
  lookup-drop_keys p j ((i, w) ∷ m) = ground (arith, e.beq_iff i j, lookup-drop_keys p j m)

  pub insert-All {μ} :
      (P : K × V → Type μ) (k : K) (v : V) (m : List (K × V))
      → ((j : K) → j ≡ k → P (j, v))
      → All P m
      → All P (insert k v m)
  unfolding insert
  insert-All P k v [] new old = (new k refl, tt)
  insert-All P k v ((j, w) ∷ m) new old =
      ground (arith, e.beq_iff j k, new j, insert-All P k v m new old.1)

  pub drop_keys-All {μ} :
      (P : K × V → Type μ) (p : K → Bool) (m : List (K × V)) → All P m → All P (drop_keys p m)
  unfolding drop_keys
  drop_keys-All P p [] old = tt
  drop_keys-All P p ((j, w) ∷ m) old = ground (arith, drop_keys-All P p m old.1)

  pub lookup-All {μ} :
      (P : K × V → Type μ) (k : K) (m : List (K × V)) {v : V}
      → All P m
      → lookup k m ≡ some v
      → P (k, v)
  unfolding lookup
  lookup-All P k [] old h = cc
  lookup-All P k ((j, w) ∷ m) {v} old h =
      ground (arith, e.beq_iff j k, lookup-All P k m {v = v} old.1)

  -- No key twice.
  abbrev pub Unique : List (K × V) → Type κ
  Unique [] = Unit
  Unique ((k, v) ∷ m) = (lookup k m ≡ none) × Unique m

  pub insert-Unique : (k : K) (v : V) (m : List (K × V)) → Unique m → Unique (insert k v m)
  unfolding insert lookup
  insert-Unique k v [] u = (refl, tt)
  insert-Unique k v ((j, w) ∷ m) u =
      ground (arith, e.beq_iff j k, e.beq_iff k j, lookup-insert k j v m, insert-Unique k v m u.1)

  pub drop_keys-Unique : (p : K → Bool) (m : List (K × V)) → Unique m → Unique (drop_keys p m)
  unfolding drop_keys lookup
  drop_keys-Unique p [] u = tt
  drop_keys-Unique p ((j, w) ∷ m) u =
      ground (arith, lookup-drop_keys p j m, drop_keys-Unique p m u.1)
