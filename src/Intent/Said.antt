-- ===== src/Intent/Said.antt =====
-- The messages that src/api/message_norm.py reads, their texts, and what marks them as a tool's result.
use Prim.Native.Char.{code}
use simple_lcp.Prelude.{
  ℕ, String, Bool, true, false, not, ◌&&◌, ◌||◌, Option, none, some, List, [], ◌∷◌, ◌++◌, ◌==◌,
  string_eq, nat_beq, any, contains, if◌then◌else◌,
}
use simple_lcp.Pipeline.Errors.{lstrip}
use simple_lcp.Pipeline.Normalize.{is_space}
use simple_lcp.Routes.Table.{starts_with, ends_with}
use simple_lcp.Router.Names.{lower_text, strip}
use simple_lcp.Intent.Chars.{is_digit, is_nil, is_in, drop_while, found_in, join_spaced}
use simple_lcp.Intent.Signals.{tool_result_prefixes, client_context_phrases}

-- the `content` of a tool_result block: a text, a list with the `text` of each entry that has one, or
-- neither
pub data Inner : Type 0 where
  inner_text : String → Inner
  inner_list : List String → Inner
  no_inner : Inner

-- a content block that is a dictionary, with its `text` if that is a text, and its `type`
pub record Block : Type 0 where
  pub text : Option String
  pub kind : String
  pub content : Inner

-- a content block, or what is no dictionary
pub data Content : Type 0 where
  plain : String → Content
  blocks : List (Option Block) → Content
  no_content : Content

pub record Said : Type 0 where
  pub role : String
  pub content : Content
  -- tool_call_id is not None
  pub has_call_id : Bool
  -- tool_calls is truthy
  pub has_tool_calls : Bool

inner_parts : Inner → List String
inner_parts (inner_text s) = s ∷ []
inner_parts (inner_list ss) = ss
inner_parts no_inner = []

block_parts : Option Block → List String
unfolding inner_parts
block_parts none = []
block_parts (some b) = elim b.text [
  | some s ↦ s ∷ []
  | none ↦ if b.kind == "tool_result" then inner_parts b.content else []
]

parts : List (Option Block) → List String
parts [] = []
parts (b ∷ bs) = block_parts b ++ parts bs

unfoldable pub content_text : Content → String
unfolding parts block_parts
content_text (plain s) = s
content_text (blocks bs) = join_spaced (parts bs)
content_text no_content = ""

is_kind : List String → Option Block → Bool
is_kind ks none = false
is_kind ks (some b) = contains b.kind ks

unfoldable pub has_block : List String → Content → Bool
unfolding is_kind
has_block ks (blocks bs) = any (is_kind ks) bs
has_block ks (plain s) = false
has_block ks no_content = false

unfoldable pub message_has_tool_calls : Said → Bool
message_has_tool_calls m = m.has_tool_calls || has_block ("tool_use" ∷ "tool_call" ∷ []) m.content

unfoldable pub has_tool_result_blocks : Said → Bool
has_tool_result_blocks m = has_block ("tool_result" ∷ []) m.content

-- The parts that _TOOL_RESULT_PATTERNS are made of. `\d+` is never followed by a digit, so it takes all
-- of them.
pub data Piece : Type 0 where
  word : String → Piece
  digits : Piece
  colon_or_space : Piece

-- s without p, if it starts with p
unfoldable pub after : String → String → Option String
after String.[] s = some s
after (String.◌∷◌ c p) String.[] = none
after (String.◌∷◌ c p) (String.◌∷◌ d s) =
    let rest = after p s in if nat_beq (code c) (code d) then rest else none

after_one : (ℕ → Bool) → String → Option String
after_one p String.[] = none
after_one p (String.◌∷◌ c s) = if p (code c) then some s else none

after_piece : Piece → String → Option String
unfolding after_one
after_piece (word w) s = after w s
after_piece digits s = elim (after_one (λ c. is_digit c) s) [
  | none ↦ none
  | some t ↦ some (drop_while (λ c. is_digit c) t)
]
after_piece colon_or_space s = after_one (λ c. nat_beq c 58 || is_space c) s

unfoldable pub begins_with : List Piece → String → Bool
unfolding after_piece
begins_with [] s = true
begins_with (p ∷ ps) s = elim (after_piece p s) [ none ↦ false | some t ↦ begins_with ps t ]

-- _TOOL_RESULT_PATTERNS, without the optional letters at their ends, and with `a|b` as two patterns
abbrev tool_result_patterns : List (List Piece)
tool_result_patterns =
    (word "ran " ∷ digits ∷ word " test" ∷ [])
    ∷ (digits ∷ word "/" ∷ digits ∷ word " test" ∷ [])
    ∷ (word "all test passed" ∷ [])
    ∷ (word "all tests passed" ∷ [])
    ∷ (digits ∷ word " test passed" ∷ [])
    ∷ (digits ∷ word " test failed" ∷ [])
    ∷ (digits ∷ word " test skipped" ∷ [])
    ∷ (digits ∷ word " tests passed" ∷ [])
    ∷ (digits ∷ word " tests failed" ∷ [])
    ∷ (digits ∷ word " tests skipped" ∷ [])
    ∷ (word "traceback (most recent call last)" ∷ [])
    ∷ (word "exit code" ∷ colon_or_space ∷ digits ∷ [])
    ∷ (word "command finished" ∷ [])
    ∷ (digits ∷ word " passed" ∷ [])
    ∷ (digits ∷ word " failed" ∷ [])
    ∷ []

unfoldable pub matches_tool_result_patterns : String → Bool
matches_tool_result_patterns text =
    let lower = lower_text (strip text) in
    not (is_nil lower)
    && (any (λ (p : String). starts_with p lower) tool_result_prefixes
        || any (λ (p : List Piece). found_in (begins_with p) lower) tool_result_patterns
        || starts_with "diff --git" (lstrip lower)
        || (starts_with "[" lower && ends_with "]" lower && is_in "\"" lower))

unfoldable pub is_client_context : String → Bool
is_client_context text =
    let lower = lower_text (strip text) in
    if is_nil lower
    then false
    else if starts_with "<" lower
    then true
    else if starts_with "[" lower
    then not (matches_tool_result_patterns text)
    else any (λ (p : String). starts_with p lower) client_context_phrases
