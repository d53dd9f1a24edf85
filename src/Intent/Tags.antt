-- ===== src/Intent/Tags.antt =====
-- The wrappers of src/api/message_norm.py: mentions, brackets, tags, and the instruction behind them.
use Prim.Native.Char.{code}
use simple_lcp.Prelude.{
  ℕ, zero, suc, ◌-◌, String, true, false, not, ◌&&◌, ◌||◌, Option, none, some, ◌==◌, string_eq,
  nat_beq, contains, ◌>>=◌, if◌then◌else◌,
}
use simple_lcp.Pipeline.Errors.{lstrip}
use simple_lcp.Pipeline.Normalize.{is_space}
use simple_lcp.Profiles.Fields.{char_count}
use simple_lcp.Routes.Table.{starts_with}
use simple_lcp.Router.Names.{lower_text, strip}
use simple_lcp.Intent.Chars.{is_letter, is_word, is_nil, is_in, is_edge, strip_of}
use simple_lcp.Intent.Signals.{continuations}
use simple_lcp.Intent.Said.{after, is_client_context}
use simple_lcp.Intent.Patterns.{
  Matcher, one_of, any_of, some_of, sub_all, opening_tag, inner_tag_pair, self_closing_tag,
}

-- one round of the loop
unfoldable pub strip_round : String → String
strip_round raw = sub_all self_closing_tag (sub_all inner_tag_pair raw)

-- the loop, on fuel
unfoldable pub strip_rounds : ℕ → String → String
strip_rounds zero raw = raw
strip_rounds (suc f) raw =
    let once = strip_round raw in elim (once == raw) [ true ↦ raw | false ↦ strip_rounds f once ]

unfoldable pub strip_complete_pairs : String → String
strip_complete_pairs raw = strip_rounds (suc (char_count raw)) raw

-- s.find("]") and s[end + 1:]
after_bracket : Matcher
after_bracket String.[] = none
after_bracket (String.◌∷◌ c s) =
    let rest = after_bracket s in if nat_beq (code c) 93 then some s else rest

unfoldable pub strip_segments : ℕ → String → String
unfolding after_bracket
strip_segments zero raw = raw
strip_segments (suc f) raw = elim (starts_with "[" raw) [
  | true ↦ elim (after_bracket raw) [ none ↦ raw | some rest ↦ strip_segments f rest ]
  | false ↦ raw
]

unfoldable pub strip_bracket_segments : String → String
strip_bracket_segments raw = strip_segments (suc (char_count raw)) raw

-- _MENTION_PREFIX_RE
mention_prefix : Matcher
unfolding some_of
mention_prefix s = do
  a ← after "[" s
  b ← some_of (λ c. not (nat_beq c 93)) a
  d ← after "]" b
  some_of is_space d

unfoldable pub strip_mention : String → String
unfolding mention_prefix
strip_mention text = strip (elim (mention_prefix text) [ none ↦ text | some rest ↦ rest ])

-- _CHAT_MENTION_RE
unfoldable pub chat_mention : Matcher
unfolding one_of any_of some_of
chat_mention s = do
  a ← after "@" s
  b ← one_of is_letter a
  d ← any_of (λ c. is_word c || nat_beq c 45) b
  e ← after ":" d
  some_of (λ c. not (is_space c)) e

-- _ATTACHMENT_REF_RE
unfoldable pub attachment_ref : Matcher
unfolding any_of
attachment_ref s = do a ← after "#attachment:" s; any_of (λ c. not (nat_beq c 10)) a

unfoldable pub strip_chat_mentions : String → String
strip_chat_mentions text =
    if is_nil text || (not (is_in "@" text) && not (is_in "#attachment" text))
    then text
    else strip (sub_all attachment_ref (sub_all chat_mention text))

-- `user[\s_-]*request`, in any case
user_request_word : Matcher
unfolding any_of
user_request_word s = do
  a ← after "user" s
  b ← any_of (λ c. is_space c || nat_beq c 95 || nat_beq c 45) a
  after "request" b

no_word_next : Matcher
no_word_next String.[] = some String.[]
no_word_next (String.◌∷◌ c s) = if is_word (code c) then none else some (String.◌∷◌ c s)

-- the opening tag of the container, over a text in lower case
request_opens : Matcher
unfolding any_of user_request_word no_word_next
request_opens s = do
  a ← after "<" s
  b ← any_of is_space a
  d ← user_request_word b
  e ← no_word_next d
  f ← any_of (λ c. not (nat_beq c 62)) e
  after ">" f

request_closes : Matcher
unfolding any_of user_request_word
request_closes s = do
  a ← after "<" s
  b ← any_of is_space a
  d ← after "/" b
  e ← any_of is_space d
  f ← user_request_word e
  g ← any_of is_space f
  after ">" g

-- the text before the first closing tag of the container
until_closed : Matcher
unfolding request_closes
until_closed String.[] = none
until_closed (String.◌∷◌ c s) = elim (request_closes (lower_text (String.◌∷◌ c s))) [
  | some rest ↦ some String.[]
  | none ↦ elim (until_closed s) [ none ↦ none | some inside ↦ some (String.◌∷◌ c inside) ]
]

-- s without its first n characters
skip_chars : ℕ → String → String
skip_chars zero s = s
skip_chars (suc n) String.[] = String.[]
skip_chars (suc n) (String.◌∷◌ c s) = skip_chars n s

container_here : Matcher
unfolding request_opens skip_chars until_closed
container_here s = do
  rest ← request_opens (lower_text s)
  until_closed (skip_chars (char_count s - char_count rest) s)

-- what _USER_REQUEST_RE finds in its group
unfoldable pub user_request : Matcher
unfolding container_here
user_request String.[] = none
user_request (String.◌∷◌ c s) = elim (container_here (String.◌∷◌ c s)) [
  | some inside ↦ some inside
  | none ↦ user_request s
]

-- the text before the first match of _OPENING_TAG_RE
unfoldable pub before_opening_tag : String → String
before_opening_tag String.[] = String.[]
before_opening_tag (String.◌∷◌ c s) = elim (opening_tag (String.◌∷◌ c s)) [
  | some rest ↦ String.[]
  | none ↦ String.◌∷◌ c (before_opening_tag s)
]

-- it, unless it is empty or says to go on
unfoldable pub real_instruction : String → Option String
real_instruction rest =
    if is_nil rest || contains (lstrip (lower_text rest)) continuations then none else some rest

abbrev behind_brackets : String → Option String
behind_brackets raw =
    let stripped = strip_bracket_segments raw in
    if stripped == raw
    then none
    else real_instruction (strip_of (λ c. is_edge c) (strip_chat_mentions stripped))

abbrev behind_tags : String → Option String
behind_tags raw = real_instruction (
    strip_of (λ c. is_edge c) (strip_chat_mentions (before_opening_tag (strip_complete_pairs raw))))

abbrev tail_of : String → Option String → Option String
tail_of raw none = if starts_with "[" raw then behind_brackets raw else behind_tags raw
tail_of raw (some content) =
    real_instruction (strip_chat_mentions (strip_mention (strip_of (λ c. is_edge c) content)))

unfoldable pub context_tail : String → Option String
context_tail text =
    let raw = strip text in if is_client_context text then tail_of raw (user_request raw) else none
