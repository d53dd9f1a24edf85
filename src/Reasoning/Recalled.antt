-- ===== src/Reasoning/Recalled.antt =====
-- The reasoning that `ensure_thinking_reasoning_content` of src/api/request_pipeline.py gives back to
-- a turn: what the store of src/api/reasoning_store.py holds when the request comes in.
use simple_lcp.Prelude.{
  ℕ, String, ◌≡◌, refl, ap, subst, ◌∙◌, true, not, ◌&&◌, Option, none, some, List, [], ◌∷◌, map,
  ◌==◌, string_eq, arith, Bool-cases, inl, inr, lookup-remove, if◌then◌else◌,
}
use simple_lcp.Pipeline.Message.{
  Field, absent, null, value, ToolCall, Message, calls_of, is_calling, call_id,
}
use simple_lcp.Reasoning.Store.{
  ReasoningStore, forget, get_for_tool_call_id, call_key, first_reasoning, is_present,
  rehydrate_message, rehydrate,
}
use simple_lcp.Reasoning.Presence.{
  inject_placeholder, inject_all, ensure_thinking_reasoning_content,
}

-- The first text that is not empty among those remembered for the ids of the calls, or "".
unfoldable pub recalled : (String → Option String) → List ToolCall → String
recalled remembered [] = ""
recalled remembered (tc ∷ cs) =
    let rest = recalled remembered cs in
    elim (remembered (call_key (call_id tc))) [
      | none ↦ rest
      | some text ↦ if text == "" then rest else text
    ]

-- A calling turn without a reasoning gets the one that is remembered for its calls.
unfoldable pub restored : (String → Option String) → Message → Message
restored remembered m =
    if is_calling m && not (is_present m.reasoning_content)
    then record m { reasoning_content = value (recalled remembered (calls_of m.tool_calls)) }
    else m

-- What the store answers for an id.
abbrev pub answer : ReasoningStore → ℕ → String → Option String
answer s now k = (get_for_tool_call_id s k now).0

-- A question, which may forget what has expired, changes no answer.
answer-get :
    (s : ReasoningStore) (now : ℕ) (j k : String)
    → answer (get_for_tool_call_id s j now).1 now k ≡ answer s now k
unfolding get_for_tool_call_id forget
answer-get s now j k = ground (
  arith,
  string_eq.beq_iff j k,
  string_eq.beq_iff j "",
  string_eq.beq_iff k "",
  lookup-remove j k s.stored_at,
  lookup-remove j k s.by_tool_call_id,
)

module _ (now : ℕ) (remembered : String → Option String) where
  -- The store answers what is remembered.
  abbrev Answers : ReasoningStore → Type 0
  Answers s = (k : String) → answer s now k ≡ remembered k

  placed : Field String → Field String
  placed absent = value ""
  placed f = f

  get-Answers :
      (s : ReasoningStore) (k : String) → Answers s → Answers (get_for_tool_call_id s k now).1
  get-Answers s k h j = answer-get s now k j ∙ h j

  -- The loop's turn at one call: what it finds, or what the rest gives.
  abbrev found_or :
      Option String → Field String × ReasoningStore → ReasoningStore → Field String × ReasoningStore
  found_or o rest s = elim o [
    | none ↦ rest
    | some text ↦ if text == "" then rest else (value text, s)
  ]

  abbrev text_or : Option String → String → String
  text_or o more = elim o [ none ↦ more | some text ↦ if text == "" then more else text ]

  abbrev IsRecalled : Field String × ReasoningStore → String → Type 0
  IsRecalled (f, s) t = (placed f ≡ value t) × Answers s

  turn-IsRecalled :
      (o : Option String) (rest : Field String × ReasoningStore) (s : ReasoningStore)
      (more : String)
      → Answers s
      → IsRecalled rest more
      → IsRecalled (found_or o rest s) (text_or o more)
  unfolding placed
  turn-IsRecalled none rest s more h r = r
  turn-IsRecalled (some text) rest s more h r = elim (Bool-cases (text == "")) [
    | inl q ↦ rw q r
    | inr q ↦ rw q (refl, h)
  ]

  first_reasoning-recalled :
      (cs : List ToolCall) (s : ReasoningStore)
      → Answers s
      → IsRecalled (first_reasoning cs now s) (recalled remembered cs)
  unfolding first_reasoning recalled placed
  first_reasoning-recalled [] s h = (refl, h)
  first_reasoning-recalled (tc ∷ cs) s h =
      let k = call_key (call_id tc) in
      let (own, s') = get_for_tool_call_id s k now in
      let later = get-Answers s k h in
      let rest = first_reasoning cs now s' in
      let more = recalled remembered cs in
      subst (λ o. IsRecalled (found_or own rest s') (text_or o more)) (h k)
        (turn-IsRecalled own rest s' more later (first_reasoning-recalled cs s' later))

  filled :
      (m : Message) (f : Field String) (t : String)
      → is_calling m ≡ true
      → placed f ≡ value t
      → inject_placeholder (record m { reasoning_content = f })
        ≡ record m { reasoning_content = value t }
  unfolding inject_placeholder is_calling placed
  filled m absent t c e = rw c (ap (λ v. record m { reasoning_content = v }) e)
  filled m null t c e = rw c (ap (λ v. record m { reasoning_content = v }) e)
  filled m (value v) t c e = rw c (ap (λ v. record m { reasoning_content = v }) e)

  rehydrate_message-restored :
      (m : Message) (s : ReasoningStore)
      → Answers s
      → let (m', s') = rehydrate_message m now s in
        (inject_placeholder m' ≡ restored remembered m) × Answers s'
  unfolding rehydrate_message restored inject_placeholder is_calling placed
  rehydrate_message-restored m s h =
      let (found, later) = first_reasoning-recalled (calls_of m.tool_calls) s h in
      elim (Bool-cases (is_calling m && not (is_present m.reasoning_content))) [
        | inl e ↦ rw e (
          filled m (first_reasoning (calls_of m.tool_calls) now s).0 _ (ground arith) found,
          later,
        )
        | inr e ↦ rw e (rw e refl, h)
      ]

  rehydrate-restored :
      (ms : List Message) (s : ReasoningStore)
      → Answers s
      → inject_all (rehydrate ms now s).0 ≡ map (restored remembered) ms
  unfolding rehydrate inject_all
  rehydrate-restored [] s h = refl
  rehydrate-restored (m ∷ ms) s h =
      let (same, later) = rehydrate_message-restored m s h in
      rw (same, rehydrate-restored ms (rehydrate_message m now s).1 later) refl

-- For a model that supports thinking, the messages that leave are those that came in, each calling turn
-- without a reasoning with the first text that the store remembers for its calls, or with "".
pub ensured-restored :
    (ms : List Message) (now : ℕ) (s : ReasoningStore)
    → (ensure_thinking_reasoning_content true ms now s).0 ≡ map (restored (answer s now)) ms
unfolding ensure_thinking_reasoning_content
ensured-restored ms now s = rehydrate-restored now (answer s now) ms s (λ k. refl)
