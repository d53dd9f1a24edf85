-- ===== src/Intent/Walk.antt =====
-- `_extract_intent_text` of src/api/message_norm.py. Its loop goes from the newest message to the oldest,
-- over the reverse of the list.
use mathlib.Core.List.{reverse}
use simple_lcp.Prelude.{
  ℕ, suc, String, Bool, true, false, not, ◌&&◌, ◌||◌, Option, none, some, List, [], ◌∷◌, ◌==◌,
  string_eq, if◌then◌else◌,
}
use simple_lcp.Router.Names.{strip}
use simple_lcp.Intent.Chars.{is_nil}
use simple_lcp.Intent.Said.{
  Said, content_text, message_has_tool_calls, has_tool_result_blocks, matches_tool_result_patterns,
  is_client_context,
}
use simple_lcp.Intent.Tags.{context_tail, strip_mention, strip_chat_mentions}
use simple_lcp.Intent.Preamble.{is_preamble_like, preamble_tail, is_continuation}

pub record Meta : Type 0 where
  pub source : String
  pub skipped_tool : ℕ
  pub skipped_cont : ℕ
  pub skipped_context : ℕ
  pub skipped_preamble : ℕ
  pub preamble : Bool

abbrev pub no_meta : Meta
no_meta = record {
  source = "none";
  skipped_tool = 0;
  skipped_cont = 0;
  skipped_context = 0;
  skipped_preamble = 0;
  preamble = false;
}

-- the message before it
called_before : List Said → Bool
called_before [] = false
called_before (m ∷ older) = m.role == "assistant" && message_has_tool_calls m

unfoldable pub is_tool_result : Said → List Said → Bool
unfolding called_before
is_tool_result m older =
    m.has_call_id
    || has_tool_result_blocks m
    || called_before older
    || matches_tool_result_patterns (content_text m.content)

-- What the loop does with a message. `passed_over` leaves no trace.
pub data Verdict : Type 0 where
  passed_over tool_echo context preamble continuation : Verdict
  instruction : String → Verdict

-- `(stripped or text).strip()`
abbrev bare_text : String → String
bare_text text =
    let stripped = strip_chat_mentions (strip_mention text) in
    strip (if is_nil stripped then text else stripped)

-- The loop tests the tail once more as `context_tail` and `preamble_tail` have tested it.
abbrev tail_or : Verdict → Option String → Verdict
tail_or v none = v
tail_or v (some tail) = instruction tail

-- the tests of the loop on a user's message
unfoldable pub judge_text : Bool → String → Verdict
judge_text tool text =
    if tool
    then tool_echo
    else if is_client_context text
    then tail_or context (context_tail text)
    else if is_preamble_like text
    then tail_or preamble (preamble_tail text)
    else if is_continuation text
    then continuation
    else instruction (bare_text text)

-- neither system, assistant nor tool
abbrev pub is_users : Said → Bool
is_users m = not (m.role == "system" || m.role == "assistant" || m.role == "tool")

unfoldable pub judge : Said → List Said → Verdict
judge m older =
    if m.role == "system"
    then passed_over
    else if m.role == "assistant"
    then passed_over
    else if m.role == "tool"
    then tool_echo
    else judge_text (is_tool_result m older) (content_text m.content)

-- first_user_text, last_preamble_text and meta
pub record Walked : Type 0 where
  pub first_user : String
  pub last_preamble : String
  pub meta : Meta

unfoldable pub seen_user : Said → String → String
seen_user m first =
    let text = content_text m.content in
    if is_users m
      && not (is_nil (strip text))
      && not (is_client_context text)
      && not (is_preamble_like text)
    then text
    else first

unfoldable pub with_verdict : Verdict → String → Walked → Walked
with_verdict tool_echo text w = record w {
  meta = record w.meta { skipped_tool = suc w.meta.skipped_tool };
}
with_verdict context text w = record w {
  meta = record w.meta { skipped_context = suc w.meta.skipped_context };
}
with_verdict preamble text w = record w {
  last_preamble = text;
  meta = record w.meta { skipped_preamble = suc w.meta.skipped_preamble; preamble = true };
}
with_verdict continuation text w = record w {
  meta = record w.meta { skipped_cont = suc w.meta.skipped_cont };
}
with_verdict passed_over text w = w
with_verdict (instruction t) text w = w

-- what is left when the loop ends
unfoldable pub nothing_genuine : Walked → String × Meta
nothing_genuine w =
    if is_nil w.last_preamble
    then (bare_text w.first_user, record w.meta { source = "first_user_fallback" })
    else (strip w.last_preamble, record w.meta { source = "preamble" })

unfoldable pub next_message : Verdict → String → Walked → (Walked → String × Meta) → String × Meta
next_message (instruction t) text w onward = (t, record w.meta { source = "last_instruction" })
next_message passed_over text w onward = onward w
next_message tool_echo text w onward = onward (with_verdict tool_echo text w)
next_message context text w onward = onward (with_verdict context text w)
next_message preamble text w onward = onward (with_verdict preamble text w)
next_message continuation text w onward = onward (with_verdict continuation text w)

unfoldable pub walk : List Said → Walked → String × Meta
walk [] w = nothing_genuine w
walk (m ∷ older) w =
    next_message (judge m older) (content_text m.content)
      (record w { first_user = seen_user m w.first_user }) (walk older)

unfoldable pub from_newest : List Said → String × Meta
from_newest [] = ("", no_meta)
from_newest (m ∷ older) =
    walk (m ∷ older) (record { first_user = ""; last_preamble = ""; meta = no_meta })

unfoldable pub extract_intent_text : List Said → String × Meta
extract_intent_text messages = from_newest (reverse messages)
