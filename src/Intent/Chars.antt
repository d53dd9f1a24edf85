-- ===== src/Intent/Chars.antt =====
-- The characters and texts that src/api/message_norm.py works on. Letters and digits are the ASCII
-- ones, in `lower` and in the patterns.
use Prim.Native.Char.{Char, code}
use Prim.Native.String.{◌++◌ as join_text}
use simple_lcp.Prelude.{
  ℕ, zero, suc, String, Bool, true, false, ◌&&◌, ◌||◌, Option, none, some, List, [], ◌∷◌, string_eq,
  leb, nat_beq, if◌then◌else◌,
}
use simple_lcp.Pipeline.Normalize.{is_space}
use simple_lcp.Routes.Table.{starts_with}

abbrev pub is_letter : ℕ → Bool
is_letter c = (leb 65 c && leb c 90) || (leb 97 c && leb c 122)

abbrev pub is_digit : ℕ → Bool
is_digit c = leb 48 c && leb c 57

-- \w
abbrev pub is_word : ℕ → Bool
is_word c = is_letter c || is_digit c || nat_beq c 95

abbrev pub is_nil : String → Bool
is_nil String.[] = true
is_nil (String.◌∷◌ c s) = false

-- every character passes `p`
unfoldable pub all_chars : (ℕ → Bool) → String → Bool
all_chars p String.[] = true
all_chars p (String.◌∷◌ c s) = p (code c) && all_chars p s

-- needle in s
unfoldable pub is_in : String → String → Bool
is_in needle String.[] = is_nil needle
is_in needle (String.◌∷◌ c s) = starts_with needle (String.◌∷◌ c s) || is_in needle s

-- s without its first characters that pass `p`
unfoldable pub drop_while : (ℕ → Bool) → String → String
drop_while p String.[] = String.[]
drop_while p (String.◌∷◌ c s) =
    let rest = drop_while p s in if p (code c) then rest else String.◌∷◌ c s

-- the first characters of s that pass `p`
unfoldable pub take_while : (ℕ → Bool) → String → String
take_while p String.[] = String.[]
take_while p (String.◌∷◌ c s) =
    let rest = take_while p s in if p (code c) then String.◌∷◌ c rest else String.[]

-- the characters of s that pass `p`
unfoldable pub keep_if : (ℕ → Bool) → String → String
keep_if p String.[] = String.[]
keep_if p (String.◌∷◌ c s) =
    let rest = keep_if p s in if p (code c) then String.◌∷◌ c rest else rest

drop_end : (ℕ → Bool) → String → String
drop_end p String.[] = String.[]
drop_end p (String.◌∷◌ c s) =
    let rest = drop_end p s in if is_nil rest && p (code c) then String.[] else String.◌∷◌ c rest

-- s.strip(chars)
unfoldable pub strip_of : (ℕ → Bool) → String → String
unfolding drop_end
strip_of p s = drop_end p (drop_while p s)

-- the characters of " \n\t:-"
abbrev pub is_edge : ℕ → Bool
is_edge c = nat_beq c 32 || nat_beq c 10 || nat_beq c 9 || nat_beq c 58 || nat_beq c 45

starts_blank : String → Bool
starts_blank String.[] = false
starts_blank (String.◌∷◌ c s) = is_space (code c)

-- re.sub(r"\s+", " ", s)
unfoldable pub squeeze : String → String
unfolding starts_blank
squeeze String.[] = String.[]
squeeze (String.◌∷◌ c s) =
    let rest = squeeze s in
    if is_space (code c)
    then if starts_blank s then rest else join_text " " rest
    else String.◌∷◌ c rest

add_to_word : Char → String → List String → List String
add_to_word c s [] = String.◌∷◌ c String.[] ∷ []
add_to_word c s (w ∷ ws) =
    if is_nil s || starts_blank s then String.◌∷◌ c String.[] ∷ w ∷ ws else String.◌∷◌ c w ∷ ws

-- s.split()
unfoldable pub words : String → List String
unfolding add_to_word starts_blank
words String.[] = []
words (String.◌∷◌ c s) =
    let rest = words s in if is_space (code c) then rest else add_to_word c s rest

-- " ".join(parts)
unfoldable pub join_spaced : List String → String
join_spaced [] = ""
join_spaced (s ∷ []) = s
join_spaced (s ∷ t ∷ ss) = join_text s (join_text " " (join_spaced (t ∷ ss)))

-- re.sub(pattern, "", s), where `matched` gives what follows a match at the start of a text. The number
-- counts the characters of the match that are still to be left out.
unfoldable pub erase : (String → Option ℕ) → ℕ → String → String
erase matched k String.[] = String.[]
erase matched (suc k) (String.◌∷◌ c s) = erase matched k s
erase matched zero (String.◌∷◌ c s) = elim (matched (String.◌∷◌ c s)) [
  | none ↦ String.◌∷◌ c (erase matched zero s)
  | some more ↦ erase matched more s
]

-- whether a pattern matches somewhere in a text
unfoldable pub found_in : (String → Bool) → String → Bool
found_in matched String.[] = matched String.[]
found_in matched (String.◌∷◌ c s) = matched (String.◌∷◌ c s) || found_in matched s
