-- ===== src/Intent/Meaning.antt =====
-- The semantic classifier of src/api/task_classifier.py inside `classify_task_detail` of src/api/router.py.
use simple_lcp.Prelude.{
  ℕ, String, ◌≡◌, ap, ◌∙◌, inl, inr, true, Option, none, some, List, ◌∷◌, some-inj,
}
use simple_lcp.Router.Scores.{Floats}
use simple_lcp.Router.Choice.{IsOrdered}
use simple_lcp.Intent.Said.{Said}
use simple_lcp.Intent.Semantic.{Embedder, SemanticClassifier, Scores, build_centroids, top_scores}
use simple_lcp.Intent.Nearest.{IsNearestText, top_score-IsNearest}
use simple_lcp.Intent.Classify.{Classifier, classify_task_detail}
use simple_lcp.Intent.Structure.{structure-not_semantic}
use simple_lcp.Intent.Judged.{asked, IsBest, classified-IsFounded}

module _ (N : Floats) (sqrt : N.F → N.F) where
  abbrev only_scores : Option (SemanticClassifier N sqrt × Scores N sqrt) → Option (Scores N sqrt)
  only_scores none = none
  only_scores (some (s, scores)) = some scores

  -- `clf.min_score` and `clf.top_scores(text, 5)`
  unfoldable pub classifier_of : SemanticClassifier N sqrt → Classifier N
  classifier_of s = record {
    min_score = s.min_score;
    top_scores = λ text. only_scores (top_scores N sqrt s text 5);
  }

  with_state :
      (o : Option (SemanticClassifier N sqrt × Scores N sqrt)) (scores : Scores N sqrt)
      → only_scores o ≡ some scores
      → (s : SemanticClassifier N sqrt) × (o ≡ some (s, scores))
  with_state none scores e = cc
  with_state (some (s, have)) scores e = (s, ap (λ y. some (s, y)) (some-inj e))

  -- The task has, among the centroids that `_build_centroids` makes of this classifier's own or of the
  -- exemplars, the one that is nearest to the text, with a cosine that reaches the gate.
  abbrev pub IsMeant : SemanticClassifier N sqrt → String → String → Type 0
  IsMeant r text t =
      (x : N.F) × (s : SemanticClassifier N sqrt) × (embed : Embedder N sqrt) × (N.le r.min_score x
        ≡ true)
      × (r.embed ≡ some embed)
      × (build_centroids N sqrt r ≡ some s)
      × IsNearestText N sqrt embed text s.centroids t x

  best-IsMeant :
      (encode : String → Option ℕ) (round : N.F → N.F) (r : SemanticClassifier N sqrt)
      (text t : String)
      → IsOrdered N
      → IsBest N encode round (some (classifier_of r)) text t
      → IsMeant r text t
  unfolding classifier_of
  best-IsMeant encode round r text t ord (c, x, more, same, scores, reached) =
      let c_is : classifier_of r ≡ c = some-inj same in
      let (s, e) =
        with_state (top_scores N sqrt r text 5) ((t, x) ∷ more)
          (ap (λ (d : Classifier N). d.top_scores text) c_is ∙ scores) in
      let (embed, has, built, near) = top_score-IsNearest N sqrt r s text 4 t x more ord e in
      (x, s, embed, ap (λ (d : Classifier N). N.le d.min_score x) c_is ∙ reached, has, built, near)

  -- When the order of the floats by their negations is a strict weak one (which a NaN breaks): if a request
  -- is classified by its meaning, no centroid of the classifier, its own or the ones that it builds from
  -- the exemplars, is nearer by the cosine than the task's to the vector of the text that is asked about,
  -- and the cosine reaches the gate of the classifier.
  pub semantic_task-IsMeant :
      (encode : String → Option ℕ) (round : N.F → N.F) (r : SemanticClassifier N sqrt)
      (messages : List Said) (tools : List String)
      → IsOrdered N
      → (classify_task_detail N encode round (some (classifier_of r)) messages tools).path
        ≡ "semantic"
      → IsMeant r
          (asked N encode round messages)
          (classify_task_detail N encode round (some (classifier_of r)) messages tools).task
  semantic_task-IsMeant encode round r messages tools ord e =
      elim (classified-IsFounded N encode round (some (classifier_of r)) messages tools) [
        | inl (flag, (path, task, other)) ↦ absurd (other e)
        | inr (flag, by) ↦ elim by [
          | inl (best, path) ↦ best-IsMeant encode round r _ _ ord best
          | inr (no_best, structure) ↦ absurd (
              structure-not_semantic N encode round messages tools
                (classify_task_detail N encode round (some (classifier_of r)) messages tools)
                structure e)
        ]
      ]
