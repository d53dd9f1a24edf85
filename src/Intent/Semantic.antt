-- ===== src/Intent/Semantic.antt =====
-- `SemanticClassifier` of src/api/task_classifier.py. The floats are those of Router/Scores, with a square
-- root; the embedder is a parameter, which may raise. An IndexError is `none`.
use simple_lcp.Prelude.{
  ℕ, zero, suc, ◌*◌, String, Bool, not, ◌&&◌, ◌||◌, Option, none, some, List, [], ◌∷◌, map,
  string_eq, nat_beq, length, sort_by, if◌then◌else◌,
}
use simple_lcp.Router.Scores.{Floats}
use simple_lcp.Intent.Chars.{is_nil}
use simple_lcp.Intent.Exemplars.{task_exemplars}

-- xs[:n]
unfoldable pub first_of {ℓ} : {A : Type ℓ} → ℕ → List A → List A
first_of zero xs = []
first_of (suc n) [] = []
first_of (suc n) (x ∷ xs) = x ∷ first_of n xs

module _ (N : Floats) (sqrt : N.F → N.F) where
  abbrev pub Vec : Type 0
  Vec = List N.F

  abbrev pub Embedder : Type 0
  Embedder = List String → Option (List Vec)

  abbrev float : ℕ → N.F
  float n = N.hundredths (n * 100)

  -- x or 1.0
  abbrev or_one : N.F → N.F
  or_one x = if N.le x (float 0) && N.le (float 0) x then float 1 else x

  unfoldable pub dot_from : N.F → Vec → Vec → N.F
  dot_from acc [] ys = acc
  dot_from acc (x ∷ xs) [] = acc
  dot_from acc (x ∷ xs) (y ∷ ys) = dot_from (N.add acc (N.mul x y)) xs ys

  abbrev pub norm : Vec → N.F
  norm xs = or_one (sqrt (dot_from (float 0) xs xs))

  unfoldable pub cosine : Vec → Vec → N.F
  cosine a b =
      if nat_beq (length a) 0 || nat_beq (length b) 0 || not (nat_beq (length a) (length b))
      then float 0
      else N.div (dot_from (float 0) a b) (N.mul (norm a) (norm b))

  -- centroid[i] += v[i], for each i of the centroid
  unfoldable pub add_vec : Vec → Vec → Option Vec
  add_vec [] v = some []
  add_vec (x ∷ xs) [] = none
  add_vec (x ∷ xs) (y ∷ ys) = elim (add_vec xs ys) [ none ↦ none | some zs ↦ some (N.add x y ∷ zs) ]

  unfoldable pub sum_vecs : Vec → List Vec → Option Vec
  sum_vecs acc [] = some acc
  sum_vecs acc (v ∷ vs) = elim (add_vec acc v) [ none ↦ none | some more ↦ sum_vecs more vs ]

  abbrev unit : Vec → Vec
  unit c = map (λ x. N.div x (norm c)) c

  -- the centroid of the vectors of one task
  unfoldable pub centroid_of : List Vec → Vec → Option Vec
  centroid_of vectors first = elim (sum_vecs (map (λ x. float 0) first) vectors) [
    | none ↦ none
    | some total ↦ some (unit (map (λ x. N.div x (float (length vectors))) total))
  ]

  abbrev pub Centroids : Type 0
  Centroids = List (String × Vec)

  abbrev and_task : String → Option Vec → Option Centroids → Option Centroids
  and_task task none rest = none
  and_task task (some c) none = none
  and_task task (some c) (some cs) = some ((task, c) ∷ cs)

  -- what the loop does with what the embedder answers for one task
  unfoldable pub with_task : String → Option (List Vec) → Option Centroids → Option Centroids
  with_task task none rest = rest
  with_task task (some []) rest = rest
  with_task task (some ([] ∷ vs)) rest = rest
  with_task task (some ((x ∷ xs) ∷ vs)) rest =
      and_task task (centroid_of ((x ∷ xs) ∷ vs) (x ∷ xs)) rest

  unfoldable pub build_from : Embedder → List (String × List String) → Option Centroids
  build_from embed [] = some []
  build_from embed ((task, []) ∷ more) = build_from embed more
  build_from embed ((task, p ∷ ps) ∷ more) =
      let rest = build_from embed more in with_task task (embed (p ∷ ps)) rest

  pub record SemanticClassifier : Type 0 where
    pub embed : Option Embedder
    pub min_score : N.F
    pub centroids : Option Centroids

  abbrev with_centroids : SemanticClassifier → Option Centroids → Option SemanticClassifier
  with_centroids s none = none
  with_centroids s (some cs) = some (record s { centroids = some cs })

  abbrev build_with : SemanticClassifier → Option Embedder → Option SemanticClassifier
  build_with s none = some s
  build_with s (some embed) = with_centroids s (build_from embed task_exemplars)

  unfoldable pub build_centroids : SemanticClassifier → Option SemanticClassifier
  build_centroids s = elim s.centroids [ some cs ↦ some s | none ↦ build_with s s.embed ]

  abbrev pub Scores : Type 0
  Scores = List (String × N.F)

  abbrev pub comes_before : String × N.F → String × N.F → Bool
  comes_before a b = N.lt (N.neg a.1) (N.neg b.1)

  unfoldable pub all_scores : Vec → Centroids → Scores
  all_scores v cs = map (λ (c : String × Vec). (c.0, cosine v c.1)) cs

  abbrev pub ranked : ℕ → Centroids → Option (List Vec) → Scores
  ranked k cs none = []
  ranked k cs (some []) = []
  ranked k cs (some (v ∷ vs)) = first_of k (sort_by comes_before (all_scores v cs))

  -- the scores for a text, once the centroids are there
  unfoldable pub scores_with : Embedder → String → ℕ → Option Centroids → Scores
  scores_with embed text k none = []
  scores_with embed text k (some []) = []
  scores_with embed text k (some (c ∷ cs)) = ranked k (c ∷ cs) (embed (text ∷ []))

  abbrev pub scored :
      String → ℕ → Embedder → Option SemanticClassifier → Option (SemanticClassifier × Scores)
  scored text k embed none = none
  scored text k embed (some s) = some (s, scores_with embed text k s.centroids)

  abbrev pub top_with :
      SemanticClassifier → String → ℕ → Option Embedder → Option (SemanticClassifier × Scores)
  top_with s text k none = some (s, [])
  top_with s text k (some embed) =
      if is_nil text then some (s, []) else scored text k embed (build_centroids s)

  unfoldable pub top_scores : SemanticClassifier → String → ℕ → Option (SemanticClassifier × Scores)
  top_scores s text k = top_with s text k s.embed

  abbrev gated : N.F → Scores → Option String
  gated gate [] = none
  gated gate ((t, x) ∷ more) = if N.lt x gate then none else some t

  abbrev gated_result :
      Option (SemanticClassifier × Scores) → Option (SemanticClassifier × Option String)
  gated_result none = none
  gated_result (some (s, scores)) = some (s, gated s.min_score scores)

  unfoldable pub classify :
      SemanticClassifier → String → Option (SemanticClassifier × Option String)
  classify s text = gated_result (top_scores s text 1)
