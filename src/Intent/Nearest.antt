-- ===== src/Intent/Nearest.antt =====
-- The task that `top_scores` of src/api/task_classifier.py puts first.
use simple_lcp.Prelude.{
  ℕ, suc, String, ◌≡◌, refl, sym, ap, ◌∙◌, subst, inl, inr, Bool, true, false, Option, none, some,
  List, [], ◌∷◌, some-inj, sort_by, sort_by-head, IsIn, if◌then◌else◌,
}
use simple_lcp.Router.Scores.{Floats}
use simple_lcp.Router.Choice.{outranks, IsOrdered}
use simple_lcp.Intent.Chars.{is_nil}
use simple_lcp.Intent.Semantic.{
  first_of, Vec, Embedder, cosine, SemanticClassifier, build_centroids, Scores, Centroids,
  comes_before, all_scores, ranked, scores_with, scored, top_with, top_scores,
}

-- the first of a list, or `x`
abbrev first_or {ℓ} : {A : Type ℓ} → A → List A → A
first_or x [] = x
first_or x (y ∷ ys) = y

module _ (N : Floats) (sqrt : N.F → N.F) where
  scores-IsIn :
      (v : Vec N sqrt) (t : String) (x : N.F) (cs : Centroids N sqrt)
      → IsIn (t, x) (all_scores N sqrt v cs)
      → (c : Vec N sqrt) × IsIn (t, c) cs × (x ≡ cosine N sqrt v c)
  unfolding all_scores
  scores-IsIn v t x [] i = absurd i
  scores-IsIn v t x ((u, d) ∷ cs) (inl e) =
      (d, inl (ap (λ (p : String × N.F). (p.0, d)) e), ap (λ (p : String × N.F). p.1) e)
  scores-IsIn v t x ((u, d) ∷ cs) (inr i) = let (c, j, e) = scores-IsIn v t x cs i in (c, inr j, e)

  IsIn-scores :
      (v : Vec N sqrt) (u : String) (d : Vec N sqrt) (cs : Centroids N sqrt)
      → IsIn (u, d) cs
      → IsIn (u, cosine N sqrt v d) (all_scores N sqrt v cs)
  unfolding all_scores
  IsIn-scores v u d [] i = absurd i
  IsIn-scores v u d ((w, f) ∷ cs) (inl e) =
      inl (ap (λ (p : String × Vec N sqrt). (p.0, cosine N sqrt v p.1)) e)
  IsIn-scores v u d ((w, f) ∷ cs) (inr i) = inr (IsIn-scores v u d cs i)

  -- `t` has the centroid that is nearest to `v`, with the cosine `x`.
  abbrev IsNearest : Vec N sqrt → Centroids N sqrt → String → N.F → Type 0
  IsNearest v cs t x =
      ((c : Vec N sqrt) × IsIn (t, c) cs × (x ≡ cosine N sqrt v c))
      × ((u : String) (d : Vec N sqrt) → IsIn (u, d) cs → outranks N (cosine N sqrt v d) x ≡ false)

  first-IsNearest :
      (k : ℕ) (v : Vec N sqrt) (c : String × Vec N sqrt) (cs : Centroids N sqrt) (t : String)
      (x : N.F) (more : Scores N sqrt)
      → IsOrdered N
      → first_of (suc k) (sort_by (comes_before N sqrt) (all_scores N sqrt v (c ∷ cs)))
        ≡ (t, x) ∷ more
      → IsNearest v (c ∷ cs) t x
  unfolding first_of
  first-IsNearest k v c cs t x more ord e =
      let (h, rest, sorted, i, least) =
        sort_by-head (comes_before N sqrt) (λ a b. ord.asymm a.1 b.1) (λ a. ord.irrefl a.1)
          (λ a b d. ord.trans a.1 b.1 d.1) (c.0, cosine N sqrt v c.1) (all_scores N sqrt v (c ∷ cs))
          (IsIn-scores v c.0 c.1 (c ∷ cs) (inl refl)) in
      let same = ap (λ ys. first_or h ys) (ap (λ ys. first_of (suc k) ys) (sym sorted) ∙ e) in
      (
        scores-IsIn v t x (c ∷ cs) (subst (λ p. IsIn p (all_scores N sqrt v (c ∷ cs))) same i),
        λ u d j.
            subst (λ (p : String × N.F). outranks N (cosine N sqrt v d) p.1 ≡ false) same
              (least (u, cosine N sqrt v d) (IsIn-scores v u d (c ∷ cs) j)),
      )

  ranked-IsNearest :
      (k : ℕ) (c : String × Vec N sqrt) (cs : Centroids N sqrt) (o : Option (List (Vec N sqrt)))
      (t : String) (x : N.F) (more : Scores N sqrt)
      → IsOrdered N
      → ranked N sqrt (suc k) (c ∷ cs) o ≡ (t, x) ∷ more
      → (v : Vec N sqrt) × (vs : List (Vec N sqrt)) × (o ≡ some (v ∷ vs)) × IsNearest v (c ∷ cs) t x
  ranked-IsNearest k c cs none t x more ord e = cc
  ranked-IsNearest k c cs (some []) t x more ord e = cc
  ranked-IsNearest k c cs (some (v ∷ vs)) t x more ord e =
      (v, vs, refl, first-IsNearest k v c cs t x more ord e)

  -- The first vector that the embedder answers for the text is nearest to the task's centroid.
  abbrev pub IsNearestText :
      Embedder N sqrt → String → Option (Centroids N sqrt) → String → N.F → Type 0
  IsNearestText embed text o t x =
      (v : Vec N sqrt) × (vs : List (Vec N sqrt)) × (cs : Centroids N sqrt) × (embed (text ∷ [])
        ≡ some (v ∷ vs))
      × (o ≡ some cs)
      × IsNearest v cs t x

  with-IsNearest :
      (embed : Embedder N sqrt) (text : String) (k : ℕ) (o : Option (Centroids N sqrt)) (t : String)
      (x : N.F) (more : Scores N sqrt)
      → IsOrdered N
      → scores_with N sqrt embed text (suc k) o ≡ (t, x) ∷ more
      → IsNearestText embed text o t x
  unfolding scores_with
  with-IsNearest embed text k none t x more ord e = cc
  with-IsNearest embed text k (some []) t x more ord e = cc
  with-IsNearest embed text k (some (c ∷ cs)) t x more ord e =
      let (v, vs, f, near) = ranked-IsNearest k c cs (embed (text ∷ [])) t x more ord e in
      (v, vs, c ∷ cs, f, refl, near)

  scored-IsNearest :
      (embed : Embedder N sqrt) (text : String) (k : ℕ) (o : Option (SemanticClassifier N sqrt))
      (s : SemanticClassifier N sqrt) (t : String) (x : N.F) (more : Scores N sqrt)
      → IsOrdered N
      → scored N sqrt text (suc k) embed o ≡ some (s, (t, x) ∷ more)
      → (o ≡ some s) × IsNearestText embed text s.centroids t x
  scored-IsNearest embed text k none s t x more ord e = cc
  scored-IsNearest embed text k (some r) s t x more ord e =
      let both = some-inj e in
      (
        ap (λ p. some p.0) both,
        subst (λ q. IsNearestText embed text q.centroids t x) (ap (λ p. p.0) both)
            (with-IsNearest embed text k r.centroids t x more ord (ap (λ p. p.1) both)),
      )

  unless_empty_text :
      (b : Bool) (embed : Embedder N sqrt) (text : String) (k : ℕ) (r s : SemanticClassifier N sqrt)
      (t : String) (x : N.F) (more : Scores N sqrt)
      → IsOrdered N
      → (if b then some (r, []) else scored N sqrt text (suc k) embed (build_centroids N sqrt r))
        ≡ some (s, (t, x) ∷ more)
      → (build_centroids N sqrt r ≡ some s) × IsNearestText embed text s.centroids t x
  unless_empty_text true embed text k r s t x more ord e = cc
  unless_empty_text false embed text k r s t x more ord e =
      scored-IsNearest embed text k (build_centroids N sqrt r) s t x more ord e

  by_embedder :
      (o : Option (Embedder N sqrt)) (text : String) (k : ℕ) (r s : SemanticClassifier N sqrt)
      (t : String) (x : N.F) (more : Scores N sqrt)
      → IsOrdered N
      → top_with N sqrt r text (suc k) o ≡ some (s, (t, x) ∷ more)
      → (embed : Embedder N sqrt) × (o ≡ some embed)
        × (build_centroids N sqrt r ≡ some s)
        × IsNearestText embed text s.centroids t x
  by_embedder none text k r s t x more ord e = cc
  by_embedder (some embed) text k r s t x more ord e =
      let (built, near) = unless_empty_text (is_nil text) embed text k r s t x more ord e in
      (embed, refl, built, near)

  -- When the order of the floats is a strict weak one: the first of the scores that the classifier answers
  -- for a text is that of a task whose centroid is nearest to the text's vector, by the cosine, among
  -- all the centroids that `_build_centroids` leaves it with.
  pub top_score-IsNearest :
      (r s : SemanticClassifier N sqrt) (text : String) (k : ℕ) (t : String) (x : N.F)
      (more : Scores N sqrt)
      → IsOrdered N
      → top_scores N sqrt r text (suc k) ≡ some (s, (t, x) ∷ more)
      → (embed : Embedder N sqrt) × (r.embed ≡ some embed)
        × (build_centroids N sqrt r ≡ some s)
        × IsNearestText embed text s.centroids t x
  unfolding top_scores
  top_score-IsNearest r s text k t x more ord e = by_embedder r.embed text k r s t x more ord e
