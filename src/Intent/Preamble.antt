-- ===== src/Intent/Preamble.antt =====
-- Preambles and continuations in src/api/message_norm.py.
use Prim.Native.Char.{Char, code}
use simple_lcp.Prelude.{
  ℕ, String, Bool, true, not, ◌&&◌, ◌||◌, Option, none, some, List, string_eq, ltb, leb, nat_beq,
  any, contains, length, if◌then◌else◌,
}
use simple_lcp.Pipeline.Errors.{lstrip}
use simple_lcp.Pipeline.Normalize.{is_space}
use simple_lcp.Profiles.Fields.{char_count}
use simple_lcp.Router.Names.{lower_text, strip}
use simple_lcp.Intent.Chars.{is_digit, is_nil, is_in, is_edge, keep_if, squeeze, strip_of, words}
use simple_lcp.Intent.Signals.{continuations, specific_signals, short_instruction_starters}

-- the text after the last newline of the white space that s starts with
after_newline : String → Option String
after_newline String.[] = none
after_newline (String.◌∷◌ c s) =
    let later = after_newline s in
    if is_space (code c)
    then elim later [ some t ↦ some t | none ↦ if nat_beq (code c) 10 then some s else none ]
    else none

abbrev put_before : Char → Option (String × String) → Option (String × String)
put_before c none = none
put_before c (some (a, b)) = some (String.◌∷◌ c a, b)

-- re.split(r"\n\s*\n", s, maxsplit=1), if there is a blank line
unfoldable pub split_at_blank_line : String → Option (String × String)
unfolding after_newline
split_at_blank_line String.[] = none
split_at_blank_line (String.◌∷◌ c s) =
    let later = put_before c (split_at_blank_line s) in
    if nat_beq (code c) 10
    then elim (after_newline s) [ some t ↦ some (String.[], t) | none ↦ later ]
    else later

abbrev head_or : String → Option (String × String) → String
head_or raw none = strip raw
head_or raw (some (a, b)) = strip a

unfoldable pub preamble_head : String → String
preamble_head text = head_or (strip text) (split_at_blank_line (strip text))

-- some signal that passes is in the text
signalled : (String → Bool) → String → Bool
signalled p norm =
    any (λ (kws : List String). any (λ (kw : String). p kw && is_in kw norm) kws) specific_signals

-- [a-z0-9\s]
plain_char : ℕ → Bool
plain_char c = (leb 97 c && leb c 122) || is_digit c || is_space c

unfoldable pub is_continuation : String → Bool
unfolding signalled plain_char
is_continuation text =
    let norm = strip (squeeze (keep_if plain_char (lower_text (strip text)))) in
    let ws = words norm in
    contains norm continuations
    || (leb (length ws) 3
        && not (signalled (λ kw. true) norm)
        && not (any (λ (w : String). contains w short_instruction_starters) ws))

-- a keyword that is more than a short word
is_phrase : String → Bool
is_phrase kw = is_in " " kw || ltb 6 (char_count kw)

unfoldable pub is_preamble_like : String → Bool
unfolding signalled is_phrase
is_preamble_like text =
    let head = preamble_head text in
    let norm = squeeze (lower_text head) in
    not (is_nil head)
    && leb 120 (char_count norm)
    && not (is_continuation head)
    && not (signalled is_phrase norm)

abbrev rest_of : Option (String × String) → Option String
rest_of none = none
rest_of (some (a, b)) =
    let rest = strip_of (λ c. is_edge c) b in
    if is_nil rest || contains (lstrip (lower_text rest)) continuations then none else some rest

unfoldable pub preamble_tail : String → Option String
preamble_tail text =
    if is_preamble_like text then rest_of (split_at_blank_line (strip text)) else none
