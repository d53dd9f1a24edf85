-- ===== src/Pipeline/Balance.antt =====
-- What `sanitize_messages` of src/api/request_pipeline.py guarantees to the provider.
use mathlib.Core.List.{append-nil}
use simple_lcp.Prelude.{
  String, ◌≡◌, ◌∙◌, refl, true, false, not, ◌&&◌, List, [], ◌∷◌, string_eq, Bool-cases, inl, inr,
  arith, select, contains,
}
use simple_lcp.Pipeline.Message.{
  Field, absent, null, value, ToolCall, Message, calls_of, is_empty, is_calling, is_tool_reply,
  is_text,
}
use simple_lcp.Pipeline.Sanitize.{
  call_ids, declared_ids, referenced_ids, ids_to_remove, in_ids, keep_call, as_user, with_calls,
  sanitize_message, sanitize_all, sanitize_messages,
}
use simple_lcp.Pipeline.Ids.{
  declares, answers, contains-ids_to_remove, contains-set_text, dropped_call, call_ids-kept,
  declares_one, answers_one, declares-cons, answers-cons, declares-append, answers-append,
}

-- A message is not both a tool reply and an assistant's call.
pub reply_is_no_call : (m : Message) → is_tool_reply m ≡ true → is_calling m ≡ false
unfolding is_tool_reply is_calling
reply_is_no_call m h = go m.role h
  where
    go :
        (f : Field String)
        → is_text f "tool" ≡ true
        → (is_text f "assistant" && not (is_empty (calls_of m.tool_calls))) ≡ false
    go absent e = cc
    go null e = cc
    go (value s) e = ground (
      arith,
      string_eq.beq_iff s "tool",
      string_eq.beq_iff s "assistant",
      string_eq.beq_iff "tool" "assistant",
    )

declares-with_calls :
    (m : Message) (cs : List ToolCall) (i : String)
    → is_text m.role "assistant" ≡ true
    → declares (with_calls m cs) i ≡ contains i (call_ids cs)
unfolding with_calls declared_ids is_calling contains call_ids
declares-with_calls m [] i e = ground arith
declares-with_calls m (tc ∷ cs) i e = rw (e, append-nil)

answers-with_calls :
    (m : Message) (cs : List ToolCall) (i : String)
    → is_tool_reply m ≡ false
    → answers (with_calls m cs) i ≡ false
unfolding with_calls referenced_ids is_tool_reply contains
answers-with_calls m [] i e = ground arith
answers-with_calls m (tc ∷ cs) i e = ground arith

call_is_assistant : (m : Message) → is_calling m ≡ true → is_text m.role "assistant" ≡ true
unfolding is_calling
call_is_assistant m h = ground arith

call_is_no_reply : (m : Message) → is_calling m ≡ true → is_tool_reply m ≡ false
call_is_no_reply m h = elim (Bool-cases (is_tool_reply m)) [
  | inl e ↦ absurd (cc (reply_is_no_call m e))
  | inr e ↦ e
]

declares-single : (m : Message) (i : String) → declares (m ∷ []) i ≡ declares_one m i
unfolding declared_ids contains
declares-single m i = ground (arith, declares-cons m [] i)

answers-single : (m : Message) (i : String) → answers (m ∷ []) i ≡ answers_one m i
unfolding referenced_ids contains
answers-single m i = ground (arith, answers-cons m [] i)

as_user_plain :
    (m : Message) → (is_calling (as_user m) ≡ false) × (is_tool_reply (as_user m) ≡ false)
unfolding as_user is_calling is_tool_reply
as_user_plain m = (refl, refl)

-- The repair of one message takes exactly the ids to remove out of what it declares and answers.
declares-sanitize_message :
    (ids : List String) (m : Message) (i : String)
    → declares (sanitize_message ids m) i ≡ (declares_one m i && not (contains i ids))
unfolding sanitize_message declares_one
declares-sanitize_message ids m i = elim (Bool-cases (is_calling m)) [
  | inl call ↦
      let kept = select (keep_call ids) (calls_of m.tool_calls) in
      rw (call_is_no_reply m call, call)
        (declares-with_calls m kept i (call_is_assistant m call)
          ∙ call_ids-kept (calls_of m.tool_calls) i ids)
  | inr other ↦
      rw other
        (ground (arith, other, declares-single m i, declares-single (as_user m) i, as_user_plain m))
]

answers-sanitize_message :
    (ids : List String) (m : Message) (i : String)
    → answers (sanitize_message ids m) i ≡ (answers_one m i && not (contains i ids))
unfolding sanitize_message answers_one
answers-sanitize_message ids m i = elim (Bool-cases (is_tool_reply m)) [
  | inl reply ↦ elim (Bool-cases (in_ids m.tool_call_id ids)) [
    | inl bad ↦
        rw (reply, bad)
          (ground (
            arith,
            answers-single (as_user m) i,
            as_user_plain m,
            dropped_call m.tool_call_id i ids bad,
          ))
    | inr good ↦
        rw (reply, good, reply_is_no_call m reply)
          (ground (arith, reply, answers-single m i, contains-set_text m.tool_call_id i ids good))
  ]
  | inr other ↦ elim (Bool-cases (is_calling m)) [
    | inl call ↦
        let kept = select (keep_call ids) (calls_of m.tool_calls) in
        rw (other, call) (answers-with_calls m kept i other)
    | inr plain ↦ rw (other, plain) (ground (arith, other, answers-single m i))
  ]
]

declares-sanitize_all :
    (ids : List String) (ms : List Message) (i : String)
    → declares (sanitize_all ids ms) i ≡ (declares ms i && not (contains i ids))
unfolding sanitize_all declared_ids contains
declares-sanitize_all ids [] i = refl
declares-sanitize_all ids (m ∷ ms) i =
    declares-append (sanitize_message ids m) (sanitize_all ids ms) i
    ∙ ground (
      arith,
      declares-cons m ms i,
      declares-sanitize_message ids m i,
      declares-sanitize_all ids ms i,
    )

answers-sanitize_all :
    (ids : List String) (ms : List Message) (i : String)
    → answers (sanitize_all ids ms) i ≡ (answers ms i && not (contains i ids))
unfolding sanitize_all referenced_ids contains
answers-sanitize_all ids [] i = refl
answers-sanitize_all ids (m ∷ ms) i =
    answers-append (sanitize_message ids m) (sanitize_all ids ms) i
    ∙ ground (
      arith,
      answers-cons m ms i,
      answers-sanitize_message ids m i,
      answers-sanitize_all ids ms i,
    )

contains_of_empty : (xs : List String) (i : String) → is_empty xs ≡ true → contains i xs ≡ false
unfolding contains
contains_of_empty [] i e = refl
contains_of_empty (x ∷ xs) i e = cc

empty_of_contains : (xs : List String) → ((i : String) → contains i xs ≡ false) → is_empty xs ≡ true
unfolding contains
empty_of_contains [] h = refl
empty_of_contains (x ∷ xs) h = ground (arith, h x, string_eq.beq_iff x x)

-- The repaired history declares an id exactly if the given one both declared and answered it, and
-- answers exactly the same ids: no call is left dangling and no tool reply orphaned.
pub sanitize_messages_balanced :
    (ms : List Message) (i : String)
    → (declares (sanitize_messages ms) i ≡ (declares ms i && answers ms i))
      × (answers (sanitize_messages ms) i ≡ (declares ms i && answers ms i))
unfolding sanitize_messages
sanitize_messages_balanced ms i =
    let ids = ids_to_remove ms in
    let bad = contains-ids_to_remove ms i in
    elim (Bool-cases (is_empty ids)) [
      | inl e ↦ rw e (ground (arith, bad, contains_of_empty ids i e))
      | inr e ↦
          rw e (ground (arith, bad, declares-sanitize_all ids ms i, answers-sanitize_all ids ms i))
    ]

-- Once repaired, a history is left as it is by further repairs.
sanitize_messages_idem :
    (ms : List Message) → sanitize_messages (sanitize_messages ms) ≡ sanitize_messages ms
sanitize_messages_idem ms =
    let ns = sanitize_messages ms in
    let clean : (i : String) → contains i (ids_to_remove ns) ≡ false =
      λ i. ground (arith, contains-ids_to_remove ns i, sanitize_messages_balanced ms i) in
    unfold sanitize_messages in rw (empty_of_contains (ids_to_remove ns) clean)
