-- ===== src/Intent/Judged.antt =====
-- What `classify_task_detail` of src/api/router.py answers.
use mathlib.Core.List.{reverse}
use simple_lcp.Prelude.{
  sym, ℕ, ◌<◌, String, ◌≡◌, ◌≢◌, ◌⊎◌, inl, inr, refl, ap, ◌∙◌, Bool, true, false, Option, none,
  some, List, [], ◌∷◌, string_eq, lt→ltb, arith, count_if, length, Option-cases, some-inj,
  if◌then◌else◌,
}
use simple_lcp.Router.Names.{strip, lower_text}
use simple_lcp.Router.Scores.{Floats}
use simple_lcp.Intent.Chars.{is_nil}
use simple_lcp.Intent.Said.{Said}
use simple_lcp.Intent.Walk.{extract_intent_text}
use simple_lcp.Intent.Described.{judged, newer, newest_instruction, is_preamble}
use simple_lcp.Intent.Newest.{described-told, intent-described}
use simple_lcp.Intent.Tokens.{user_text}
use simple_lcp.Intent.Classify.{
  Classifier, ClassifyResult, Attempt, result, scored, attempt_semantic, by_meaning,
  classify_task_detail,
}
use simple_lcp.Intent.Structure.{Says, IsByStructure, structure-IsByStructure}

module _ (N : Floats) (encode : String → Option ℕ) (round : N.F → N.F) where
  -- The text that the classifier is asked about.
  abbrev pub asked : List Said → String
  asked messages =
      let lower = strip (lower_text (extract_intent_text messages).0) in
      strip (if is_nil lower then strip (user_text messages) else lower)

  -- The classifier's best task for a text, with a score that reaches its gate.
  abbrev pub IsBest : Option (Classifier N) → String → String → Type 0
  IsBest clf text t =
      (c : Classifier N) × (s : N.F) × (more : List (String × N.F)) × (clf ≡ some c)
      × (c.top_scores text ≡ some ((t, s) ∷ more))
      × (N.le c.min_score s ≡ true)

  gate_kept :
      (b : Bool) (u t : String) → (if b then some u else none) ≡ some t → (u ≡ t) × (b ≡ true)
  gate_kept true u t h = (some-inj h, refl)
  gate_kept false u t h = cc

  scored-IsBest :
      (c : Classifier N) (text t : String) (o : Option (List (String × N.F)))
      → c.top_scores text ≡ o
      → (scored N encode round c.min_score o).decided ≡ some t
      → IsBest (some c) text t
  unfolding scored
  scored-IsBest c text t none e h = cc
  scored-IsBest c text t (some []) e h = cc
  scored-IsBest c text t (some ((u, s) ∷ more)) e h =
      let (same, reached) = gate_kept (N.le c.min_score s) u t h in
      (c, s, more, refl, e ∙ ap (λ x. some ((x, s) ∷ more)) same, reached)

  asked_or_not :
      (c : Classifier N) (text t : String) (b : Bool) (a : Attempt N encode round)
      → a.decided ≡ none
      → (if b then a else scored N encode round c.min_score (c.top_scores text)).decided ≡ some t
      → IsBest (some c) text t
  asked_or_not c text t true a e h = cc
  asked_or_not c text t false a e h = scored-IsBest c text t _ refl h

  attempt-IsBest :
      (clf : Option (Classifier N)) (text t : String)
      → (attempt_semantic N encode round clf text).decided ≡ some t
      → IsBest clf text t
  unfolding attempt_semantic
  attempt-IsBest none text t h = cc
  attempt-IsBest (some c) text t h = asked_or_not c text t (is_nil text) _ refl h

  -- There is no text to ask about, or no best task with a score that reaches the gate.
  abbrev pub NoBest : Option (Classifier N) → String → Type 0
  NoBest clf text = (is_nil text ≡ true) ⊎ ((t : String) → ¬ IsBest clf text t)

  undecided : (b : Bool) (u : String) → (if b then some u else none) ≡ none → b ≢ true
  undecided true u h = cc
  undecided false u h = λ e. cc

  first_score : N.F → List (String × N.F) → N.F
  first_score x [] = x
  first_score x ((t, s) ∷ more) = s

  scored-NoBest :
      (c : Classifier N) (text : String) (o : Option (List (String × N.F)))
      → c.top_scores text ≡ o
      → (scored N encode round c.min_score o).decided ≡ none
      → (t : String) → ¬ IsBest (some c) text t
  unfolding scored first_score
  scored-NoBest c text none e h t (d, s, more, same, scores, reached) =
      let q : c ≡ d = some-inj same in
      let told = ap (λ (x : Classifier N). x.top_scores text) q ∙ scores in cc (e, told)
  scored-NoBest c text (some []) e h t (d, s, more, same, scores, reached) =
      let q : c ≡ d = some-inj same in
      let told = ap (λ (x : Classifier N). x.top_scores text) q ∙ scores in cc (e, told)
  scored-NoBest c text (some ((u, x) ∷ m)) e h t (d, s, more, same, scores, reached) =
      let q : c ≡ d = some-inj same in
      let told = ap (λ (y : Classifier N). y.top_scores text) q ∙ scores in
      let first : x ≡ s = ap (λ ys. first_score x ys) (some-inj (sym e ∙ told)) in
      undecided (N.le c.min_score x) u h (
        ap (λ y. N.le c.min_score y) first
        ∙ ap (λ (y : Classifier N). N.le y.min_score s) q
        ∙ reached)

  asked_or_none :
      (c : Classifier N) (text : String) (b : Bool) (a : Attempt N encode round)
      → is_nil text ≡ b
      → (if b then a else scored N encode round c.min_score (c.top_scores text)).decided ≡ none
      → NoBest (some c) text
  asked_or_none c text true a e h = inl e
  asked_or_none c text false a e h = inr (scored-NoBest c text _ refl h)

  attempt-NoBest :
      (clf : Option (Classifier N)) (text : String)
      → (attempt_semantic N encode round clf text).decided ≡ none
      → NoBest clf text
  unfolding attempt_semantic
  attempt-NoBest none text h = inr (λ t (d, s, more, same, scores, reached). cc same)
  attempt-NoBest (some c) text h = asked_or_none c text (is_nil text) _ refl h

  abbrev IsByMeaning : Option (Classifier N) → List Said → List String → ClassifyResult N → Type 0
  IsByMeaning clf messages tools r =
      (IsBest clf (asked messages) r.task × (r.path ≡ "semantic"))
      ⊎ (NoBest clf (asked messages) × IsByStructure N encode round messages tools r)

  -- The answer is the neutral one, if a preamble was met; if not, the best task by meaning, if there is
  -- one; and if not, what the structure of the conversation stands for.
  abbrev pub IsFounded : Option (Classifier N) → List Said → List String → ClassifyResult N → Type 0
  IsFounded clf messages tools r =
      (((extract_intent_text messages).1.preamble ≡ true)
        × Says N encode round r "preamble" "agentic_multi_step")
      ⊎ (((extract_intent_text messages).1.preamble ≡ false) × IsByMeaning clf messages tools r)

  meaning-IsByMeaning :
      (clf : Option (Classifier N)) (messages : List Said) (tools : List String)
      (r : ClassifyResult N)
      → r.tool_count ≡ length tools
      → IsByMeaning clf messages tools (
          by_meaning N encode round
            (attempt_semantic N encode round clf (asked messages))
            messages
            tools
            r)
  unfolding by_meaning
  meaning-IsByMeaning clf messages tools r n =
      elim (Option-cases ((attempt_semantic N encode round clf (asked messages)).decided)) [
        | inl e ↦
            rw (by_meaning, e)
              (inr (
                attempt-NoBest clf (asked messages) e,
                structure-IsByStructure N encode round messages tools _ n,
              ))
        | inr (t, e) ↦ rw (by_meaning, e) (inl (attempt-IsBest clf (asked messages) t e, refl))
      ]

  if-IsFounded :
      (clf : Option (Classifier N)) (messages : List Said) (tools : List String) (b : Bool)
      (r s : ClassifyResult N)
      → (extract_intent_text messages).1.preamble ≡ b
      → Says N encode round r "preamble" "agentic_multi_step"
      → IsByMeaning clf messages tools s
      → IsFounded clf messages tools (if b then r else s)
  if-IsFounded clf messages tools true r s e h k = inl (e, h)
  if-IsFounded clf messages tools false r s e h k = inr (e, k)

  -- Every request is classified in one of three ways, tried in this order. If a preamble was met
  -- on the way to the intent, it is the agentic task. If not, and a classifier is there that answers
  -- scores for the text that is asked about (the intent, or the text of the user's messages) whose first
  -- one reaches its gate, it is the task of that first score. If not, it is the task that the structure
  -- stands for: agentic for a word of the system prompt or for more than five tools, deep research for
  -- more than 8000 tokens, casual for a casual word, and code generation otherwise.
  pub classified-IsFounded :
      (clf : Option (Classifier N)) (messages : List Said) (tools : List String)
      → IsFounded clf messages tools (classify_task_detail N encode round clf messages tools)
  unfolding classify_task_detail result
  classified-IsFounded clf messages tools =
      if-IsFounded clf messages tools (extract_intent_text messages).1.preamble _ _ refl
        (refl, refl, λ h. ground (arith, string_eq.beq_iff "preamble" "semantic"))
        (meaning-IsByMeaning clf messages tools _ refl)

  neutral_if : (b : Bool) (r s : ClassifyResult N) → b ≡ true → (if b then r else s) ≡ r
  neutral_if b r s e = rw e refl

  -- If a message that is newer than the newest instruction is judged a preamble: the instruction is still
  -- extracted, but the request is classified by that preamble, as the agentic task, whatever the
  -- instruction means.
  pub newer_preamble_hides_instruction :
      (clf : Option (Classifier N)) (messages : List Said) (tools : List String) (t : String)
      → newest_instruction (judged (reverse messages)) ≡ some t
      → 0 < count_if is_preamble (newer (judged (reverse messages)))
      → ((extract_intent_text messages).0 ≡ t)
        × ((classify_task_detail N encode round clf messages tools).task ≡ "agentic_multi_step")
        × ((classify_task_detail N encode round clf messages tools).path ≡ "preamble")
  unfolding classify_task_detail
  newer_preamble_hides_instruction clf messages tools t told some_preamble =
      let (text, flag) = described-told (reverse messages) t told in
      let n =
        ap (λ x. x.1.preamble) (intent-described messages) ∙ flag ∙ lt→ltb 0 _ some_preamble in
      let e = neutral_if (extract_intent_text messages).1.preamble _ _ n in
      (ap (λ x. x.0) (intent-described messages) ∙ text, ap (λ r. r.task) e, ap (λ r. r.path) e)
