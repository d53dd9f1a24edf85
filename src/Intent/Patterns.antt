-- ===== src/Intent/Patterns.antt =====
-- The patterns of src/api/message_norm.py for tags. In a pattern, `[^>]*>` goes to the first `>`; the word
-- boundary after a tag's name can always be met, because what is left of the name may belong to `[^>]*`.
use Prim.Native.Char.{code}
use simple_lcp.Prelude.{
  ℕ, ◌-◌, String, Bool, not, ◌||◌, Option, none, some, string_eq, nat_beq, ◌>>=◌, if◌then◌else◌,
}
use simple_lcp.Pipeline.Normalize.{is_space, rstrip}
use simple_lcp.Profiles.Fields.{char_count}
use simple_lcp.Routes.Table.{ends_with}
use simple_lcp.Intent.Chars.{is_letter, is_word, drop_while, take_while, erase}
use simple_lcp.Intent.Said.{after}

-- What follows a match at the start of a text, or none if there is no match.
abbrev pub Matcher : Type 0
Matcher = String → Option String

-- one character that passes
unfoldable pub one_of : (ℕ → Bool) → Matcher
one_of p String.[] = none
one_of p (String.◌∷◌ c s) = if p (code c) then some s else none

-- [...]*
unfoldable pub any_of : (ℕ → Bool) → Matcher
any_of p s = some (drop_while p s)

-- [...]+
unfoldable pub some_of : (ℕ → Bool) → Matcher
unfolding one_of any_of
some_of p s = do t ← one_of p s; any_of p t

-- how many characters a match takes after its first one
unfoldable pub more_than_one : Matcher → String → Option ℕ
more_than_one m s = elim (m s) [ none ↦ none | some t ↦ some (char_count s - char_count t - 1) ]

unfoldable pub sub_all : Matcher → String → String
sub_all m s = erase (more_than_one m) 0 s

unfoldable name_start : ℕ → Bool
name_start c = is_letter c || nat_beq c 95

-- [\w.-]
unfoldable name_char : ℕ → Bool
name_char c = is_word c || nat_beq c 46 || nat_beq c 45

unfoldable tag_start : Matcher
unfolding one_of any_of name_start
tag_start s = do a ← after "<" s; b ← any_of is_space a; one_of name_start b

-- _OPENING_TAG_RE
unfoldable pub opening_tag : Matcher
unfolding tag_start any_of
opening_tag s = do a ← tag_start s; b ← any_of (λ c. not (nat_beq c 62)) a; after ">" b

-- _INNER_TAG_PAIR_RE
unfoldable pub inner_tag_pair : Matcher
unfolding any_of one_of name_start name_char
inner_tag_pair s = do
  a ← opening_tag s
  b ← any_of (λ c. not (nat_beq c 60)) a
  d ← after "<" b
  e ← any_of is_space d
  f ← after "/" e
  g ← any_of is_space f
  h ← one_of name_start g
  i ← any_of name_char h
  j ← any_of is_space i
  after ">" j

-- _SELF_CLOSING_TAG_RE
unfoldable pub self_closing_tag : Matcher
unfolding tag_start
self_closing_tag s = do
  a ← tag_start s
  b ←
      if ends_with "/" (rstrip (take_while (λ c. not (nat_beq c 62)) a))
      then some (drop_while (λ c. not (nat_beq c 62)) a)
      else none
  after ">" b
