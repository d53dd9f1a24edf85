-- ===== src/Intent/Described.antt =====
-- What `_extract_intent_text` of src/api/message_norm.py answers, said without its loop.
use simple_lcp.Prelude.{
  ◌+◌, String, Bool, true, false, not, ◌&&◌, ◌||◌, Option, none, some, List, [], ◌∷◌, ltb, count_if,
  if◌then◌else◌,
}
use simple_lcp.Router.Names.{strip}
use simple_lcp.Intent.Chars.{is_nil}
use simple_lcp.Intent.Said.{Said, content_text, is_client_context}
use simple_lcp.Intent.Preamble.{is_preamble_like}
use simple_lcp.Intent.Walk.{
  Meta, no_meta, Verdict, tool_echo, context, preamble, continuation, instruction, is_users, judge,
  Walked, nothing_genuine,
}

-- a message with its verdict
abbrev pub Judged : Type 0
Judged = Verdict × Said

-- the messages from the newest on, each with the loop's verdict
unfoldable pub judged : List Said → List Judged
judged [] = []
judged (m ∷ older) = (judge m older, m) ∷ judged older

abbrev pub told : Verdict → Option String
told (instruction t) = some t
told _ = none

-- the newest instruction
unfoldable pub newest_instruction : List Judged → Option String
newest_instruction [] = none
newest_instruction ((v, m) ∷ more) = elim (told v) [
  | some t ↦ some t
  | none ↦ newest_instruction more
]

-- the messages that are newer than the newest instruction
unfoldable pub newer : List Judged → List Judged
newer [] = []
newer ((v, m) ∷ more) = elim (told v) [ some t ↦ [] | none ↦ (v, m) ∷ newer more ]

abbrev is_tool : Judged → Bool
is_tool (tool_echo, m) = true
is_tool _ = false

abbrev is_context : Judged → Bool
is_context (context, m) = true
is_context _ = false

abbrev pub is_preamble : Judged → Bool
is_preamble (preamble, m) = true
is_preamble _ = false

abbrev is_cont : Judged → Bool
is_cont (continuation, m) = true
is_cont _ = false

-- a user's own words
abbrev pub is_own : Said → Bool
is_own m =
    let text = content_text m.content in
    is_users m
    && not (is_nil (strip text))
    && not (is_client_context text)
    && not (is_preamble_like text)

unfoldable pub texts : (Judged → Bool) → List Judged → List String
texts p [] = []
texts p ((v, m) ∷ more) = if p (v, m) then content_text m.content ∷ texts p more else texts p more

-- the last one, or `s`
unfoldable pub oldest : String → List String → String
oldest s [] = s
oldest s (t ∷ ts) = oldest t ts

unfoldable pub counted : Meta → List Judged → Meta
counted n ns = record {
  source = n.source;
  skipped_tool = n.skipped_tool + count_if is_tool ns;
  skipped_cont = n.skipped_cont + count_if is_cont ns;
  skipped_context = n.skipped_context + count_if is_context ns;
  skipped_preamble = n.skipped_preamble + count_if is_preamble ns;
  preamble = n.preamble || ltb 0 (count_if is_preamble ns);
}

-- the answer, from the newest instruction, what was counted, and the oldest texts of each kind
unfoldable pub answered : Option String → Meta → String → String → String × Meta
answered (some t) n first last = (t, record n { source = "last_instruction" })
answered none n first last =
    nothing_genuine (record { first_user = first; last_preamble = last; meta = n })

unfoldable pub described_from : List Judged → Walked → String × Meta
unfolding texts oldest counted
described_from es w =
    let ns = newer es in
    answered (newest_instruction es) (counted w.meta ns)
      (oldest w.first_user (texts (λ (e : Judged). is_own e.1) ns))
      (oldest w.last_preamble (texts is_preamble ns))

abbrev pub blank : Walked
blank = record { first_user = ""; last_preamble = ""; meta = no_meta }

-- The answer without a loop: the newest instruction, or else the oldest preamble, or else the oldest words of the user; and how many messages were skipped, for each reason.
unfoldable pub described : List Said → String × Meta
unfolding described_from
described [] = ("", no_meta)
described (m ∷ older) = described_from (judged (m ∷ older)) blank
