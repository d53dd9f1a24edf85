-- ===== src/Pipeline/Ids.antt =====
-- The ids that a history declares and answers, through the lists of `sanitize_messages`
-- (src/api/request_pipeline.py).
use simple_lcp.Prelude.{
  String, ◌≡◌, ◌∙◌, refl, Bool, true, false, not, ◌&&◌, ◌||◌, List, [], ◌∷◌, ◌++◌, string_eq,
  Bool-cases, inl, inr, arith, select, contains, contains-append, contains-select,
}
use simple_lcp.Pipeline.Message.{
  Field, absent, null, value, ToolCall, Message, calls_of, is_calling, is_tool_reply, call_id,
  set_text,
}
use simple_lcp.Pipeline.Sanitize.{
  call_ids, declared_ids, referenced_ids, minus, ids_to_remove, in_ids, keep_call,
}

abbrev pub declares : List Message → String → Bool
declares ms i = contains i (declared_ids ms)

abbrev pub answers : List Message → String → Bool
answers ms i = contains i (referenced_ids ms)

pub contains-ids_to_remove :
    (ms : List Message) (i : String)
    → contains i (ids_to_remove ms)
      ≡ ((declares ms i && not (answers ms i)) || (answers ms i && not (declares ms i)))
unfolding ids_to_remove minus
contains-ids_to_remove ms i =
    let ds = declared_ids ms in
    let rs = referenced_ids ms in
    contains-append i (minus ds rs) (minus rs ds)
    ∙ ground (
      arith,
      contains-select (λ x. not (contains x rs)) i ds,
      contains-select (λ x. not (contains x ds)) i rs,
    )

pub contains-set_text :
    (f : Field String) (i : String) (ids : List String)
    → in_ids f ids ≡ false
    → (contains i (set_text f) && not (contains i ids)) ≡ contains i (set_text f)
unfolding contains
contains-set_text absent i ids e = refl
contains-set_text null i ids e = refl
contains-set_text (value s) i ids e = ground (arith, string_eq.beq_iff s i, string_eq.beq_iff s "")

pub dropped_call :
    (f : Field String) (i : String) (ids : List String)
    → in_ids f ids ≡ true
    → (contains i (set_text f) && not (contains i ids)) ≡ false
unfolding contains
dropped_call absent i ids e = refl
dropped_call null i ids e = refl
dropped_call (value s) i ids e = ground (arith, string_eq.beq_iff s i)

pub call_ids-kept :
    (cs : List ToolCall) (i : String) (ids : List String)
    → contains i (call_ids (select (keep_call ids) cs))
      ≡ (contains i (call_ids cs) && not (contains i ids))
unfolding call_ids select keep_call contains
call_ids-kept [] i ids = refl
call_ids-kept (tc ∷ cs) i ids = elim (Bool-cases (in_ids (call_id tc) ids)) [
  | inl e ↦ rw e (
      ground (
        arith,
        contains-append i (set_text (call_id tc)) (call_ids cs),
        dropped_call (call_id tc) i ids e,
        call_ids-kept cs i ids,
      ))
  | inr e ↦ rw e (
      ground (
        arith,
        contains-append i (set_text (call_id tc)) (call_ids cs),
        contains-append i (set_text (call_id tc)) (call_ids (select (keep_call ids) cs)),
        contains-set_text (call_id tc) i ids e,
        call_ids-kept cs i ids,
      ))
]

-- What one message declares and answers.
unfoldable pub declares_one : Message → String → Bool
declares_one m i = is_calling m && contains i (call_ids (calls_of m.tool_calls))

unfoldable pub answers_one : Message → String → Bool
answers_one m i = is_tool_reply m && contains i (set_text m.tool_call_id)

pub declares-cons :
    (m : Message) (ms : List Message) (i : String)
    → declares (m ∷ ms) i ≡ (declares_one m i || declares ms i)
unfolding declared_ids declares_one
declares-cons m ms i =
    ground (arith, contains-append i (call_ids (calls_of m.tool_calls)) (declared_ids ms))

pub answers-cons :
    (m : Message) (ms : List Message) (i : String)
    → answers (m ∷ ms) i ≡ (answers_one m i || answers ms i)
unfolding referenced_ids answers_one
answers-cons m ms i =
    ground (arith, contains-append i (set_text m.tool_call_id) (referenced_ids ms))

pub declares-append :
    (ms ns : List Message) (i : String) → declares (ms ++ ns) i ≡ (declares ms i || declares ns i)
unfolding declared_ids contains
declares-append [] ns i = refl
declares-append (m ∷ ms) ns i =
    ground (arith, declares-cons m ms i, declares-cons m (ms ++ ns) i, declares-append ms ns i)

pub answers-append :
    (ms ns : List Message) (i : String) → answers (ms ++ ns) i ≡ (answers ms i || answers ns i)
unfolding referenced_ids contains
answers-append [] ns i = refl
answers-append (m ∷ ms) ns i =
    ground (arith, answers-cons m ms i, answers-cons m (ms ++ ns) i, answers-append ms ns i)
