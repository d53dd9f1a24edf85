-- ===== src/Profiles/Fields.antt =====
-- `validate_profile_fields` of src/api/config.py, and `validate_name` of src/api/profile_data.py that it
-- asks. A ConfigError is `none`, and the floats are those of Router/Scores.
use simple_lcp.Prelude.{
  ℕ, suc, String, Bool, not, ◌&&◌, ◌||◌, Option, none, some, List, [], ◌∷◌, ◌++◌, ◌==◌, string_eq,
  ltb, leb, nat_beq, length, contains, ◌>>=◌, if◌then◌else◌,
}
use simple_lcp.Pipeline.Errors.{take_chars}
use simple_lcp.Intent.Chars.{is_letter, is_digit, all_chars}
use simple_lcp.Router.Names.{lower_text, strip}
use simple_lcp.Router.Scores.{Floats}

-- an entry of a list: a text, or anything else
pub data Item : Type 0 where
  label : String → Item
  no_label : Item

-- A field of the JSON object. `mapping` says whether the object is empty.
pub data Value (N : Floats) : Type 0 where
  absent null : Value N
  text : String → Value N
  number : N.F → Value N
  flag : Bool → Value N
  listed : List Item → Value N
  mapping : Bool → Value N

pub record Fields (N : Floats) : Type 0 where
  pub agent_profile : Value N
  pub routing : Value N
  pub intents : Value N
  pub intent_margin_gate : Value N
  pub description : Value N

pub record Validated (N : Floats) : Type 0 where
  pub agent_profile : String
  pub routing : String
  pub intents : List String
  pub intent_margin_gate : N.F
  pub description : String

-- len(s)
abbrev pub char_count : String → ℕ
char_count String.[] = 0
char_count (String.◌∷◌ c s) = suc (char_count s)

abbrev pub routing_modes : List String
routing_modes = "" ∷ "static" ∷ "dynamic" ∷ []

-- [A-Za-z0-9._-]
abbrev pub name_char : ℕ → Bool
name_char c = is_letter c || is_digit c || nat_beq c 46 || nat_beq c 95 || nat_beq c 45

-- _NAME_RE.match(s), for a text without white space at its end
unfoldable pub is_name : String → Bool
is_name s = all_chars (λ c. name_char c) s && leb 1 (char_count s) && leb (char_count s) 64

unfoldable pub validate_name : String → Option String
validate_name name =
    let bare = strip name in
    if not (is_name bare) || (bare == "." || bare == "..") then none else some bare

-- it if it is a label that may be kept
unfoldable pub checked_label : String → Option String
checked_label s = let it = strip s in if it == "" || ltb 64 (char_count it) then none else some it

-- `cleaned.append(it)`, unless it is there
unfoldable pub keep_label : String → List String → List String
keep_label it cleaned = if contains it cleaned then cleaned else cleaned ++ it ∷ []

-- the step from one label to the next, if it may be kept
unfoldable pub with_label :
    Option String → List String → (List String → Option (List String)) → Option (List String)
with_label none cleaned onward = none
with_label (some it) cleaned onward = onward (keep_label it cleaned)

unfoldable pub clean_labels : List Item → List String → Option (List String)
clean_labels [] cleaned = some cleaned
clean_labels (no_label ∷ items) cleaned = none
clean_labels (label s ∷ items) cleaned = with_label (checked_label s) cleaned (clean_labels items)

module _ (N : Floats) where
  unfoldable pub agent_of : Value N → Option String
  agent_of absent = some ""
  agent_of null = some ""
  agent_of (text s) = if strip s == "" then some "" else validate_name (strip s)
  agent_of _ = none

  abbrev mode : String → Option String
  mode r = if contains r routing_modes then some r else none

  -- `prof.get("routing", "") or ""`, then the text of it
  unfoldable pub routing_of : Value N → Option String
  routing_of (text s) = mode (lower_text (strip s))
  routing_of (number x) =
      if N.le x (N.hundredths 0) && N.le (N.hundredths 0) x then some "" else none
  routing_of (flag b) = if b then none else some ""
  routing_of (listed items) = elim items [ [] ↦ some "" | i ∷ more ↦ none ]
  routing_of (mapping empty) = if empty then some "" else none
  routing_of _ = some ""

  unfoldable pub intents_of : Value N → Option (List String)
  intents_of absent = some []
  intents_of null = some []
  intents_of (listed items) = if ltb 32 (length items) then none else clean_labels items []
  intents_of _ = none

  -- a NaN compares with nothing
  unfoldable pub gate_of : Value N → Option N.F
  gate_of absent = some (N.hundredths 0)
  gate_of null = some (N.hundredths 0)
  gate_of (number x) = if N.le (N.hundredths 0) x && N.le x (N.hundredths 100) then some x else none
  gate_of _ = none

  unfoldable pub description_of : Value N → Option String
  description_of absent = some ""
  description_of null = some ""
  description_of (text s) = some (take_chars 120 (strip s))
  description_of _ = none

  unfoldable pub validate_profile_fields : Fields N → Option (Validated N)
  validate_profile_fields f = do
    agent ← agent_of f.agent_profile
    routing ← routing_of f.routing
    intents ← intents_of f.intents
    gate ← gate_of f.intent_margin_gate
    description ← description_of f.description
    some (record {
      agent_profile = agent;
      routing = routing;
      intents = intents;
      intent_margin_gate = gate;
      description = description;
    })
