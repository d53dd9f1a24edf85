-- ===== src/Cron/Fields.antt =====
-- The requests that `_validate_op` of src/api/work_cron.py reads, and its checks of one field. A ValueError
-- is `none`; a field that is missing, null or empty is none or "".
use simple_lcp.Prelude.{
  ℕ, String, Bool, false, not, ◌&&◌, ◌||◌, Option, none, some, List, [], ◌∷◌, string_eq, ltb, leb,
  nat_beq, any, contains, if◌then◌else◌,
}
use simple_lcp.Profiles.Fields.{char_count}
use simple_lcp.Routes.Table.{starts_with}
use simple_lcp.Router.Names.{strip}
use simple_lcp.Intent.Chars.{is_letter, is_digit, is_nil, is_in, all_chars}

-- a profile of the snapshot, with the ids of its jobs
pub record Scheduled : Type 0 where
  pub profile : String
  pub jobs : List String

-- what `int(repeat)` gives: an error, a negative number, or a number
pub data Whole : Type 0 where
  no_integer negative : Whole
  whole : ℕ → Whole

-- the fields that a create or an edit reads
pub record Given : Type 0 where
  pub name : Option String
  pub schedule : Option String
  pub prompt : Option String
  pub script : Option String
  pub deliver : Option String
  pub skill : Option String
  pub workdir : Option String
  pub no_agent : Option Bool
  pub repeat : Option Whole

pub record Payload : Type 0 where
  pub action : Option String
  pub profile : Option String
  pub job_id : Option String
  pub own : Given
  -- `fields`, if it is a dictionary
  pub fields : Option Given

pub record NewJob : Type 0 where
  pub name : String
  pub schedule : String
  pub prompt : Option String
  pub script : Option String
  pub no_agent : Bool
  pub deliver : String
  pub repeat : Option ℕ
  pub skill : Option String
  pub workdir : Option String

pub record Changes : Type 0 where
  pub name : Option String
  pub schedule : Option String
  pub prompt : Option String
  pub script : Option String
  pub deliver : Option String
  pub no_agent : Option Bool

pub data Body : Type 0 where
  creates : NewJob → Body
  targets : String → Body
  edits : String → Changes → Body

pub record Op : Type 0 where
  pub action : String
  pub profile : String
  pub body : Body

abbrev pub actions : List String
actions = "create" ∷ "edit" ∷ "pause" ∷ "resume" ∷ "run" ∷ "remove" ∷ []

abbrev pub or_empty : Option String → String
or_empty none = ""
or_empty (some s) = s

-- (x or "").strip()
unfoldable pub bare : Option String → String
bare o = strip (or_empty o)

-- x or None
abbrev pub or_none : String → Option String
or_none s = if is_nil s then none else some s

-- [A-Za-z0-9 ,*/:+-]
abbrev schedule_char : ℕ → Bool
schedule_char c =
    is_letter c
    || is_digit c
    || nat_beq c 32
    || nat_beq c 44
    || nat_beq c 42
    || nat_beq c 47
    || nat_beq c 58
    || nat_beq c 43
    || nat_beq c 45

-- [A-Za-z0-9._-]
abbrev file_char : ℕ → Bool
file_char c = is_letter c || is_digit c || nat_beq c 46 || nat_beq c 95 || nat_beq c 45

-- _SCHEDULE_RE.fullmatch(s)
unfoldable pub is_schedule : String → Bool
is_schedule s = all_chars (λ c. schedule_char c) s && leb 1 (char_count s) && leb (char_count s) 64

-- _SCRIPT_RE.fullmatch(s), and _BASENAME_RE, which is the same
unfoldable pub is_file_name : String → Bool
is_file_name s = all_chars (λ c. file_char c) s && leb 1 (char_count s) && leb (char_count s) 80

-- s, if it passes
abbrev pub passing : Bool → String → Option String
passing b s = if b then some s else none

unfoldable pub is_delivery : String → Bool
is_delivery s =
    contains s ("origin" ∷ "local" ∷ "all" ∷ [])
    || any (λ (p : String). starts_with p s) ("telegram:" ∷ "discord:" ∷ "sms:" ∷ "signal:" ∷ [])

unfoldable pub name_of : String → Option String
name_of s = passing (not (is_nil s) && leb (char_count s) 80 && not (is_in "\n" s)) s

unfoldable pub schedule_of : String → Option String
schedule_of s = passing (not (is_nil s) && leb (char_count s) 64) s

-- the checks on the prompt, the script and the flag together
unfoldable pub is_work : String → String → Bool → Bool
is_work prompt script no_agent =
    (not (is_nil prompt) || not (is_nil script))
    && leb (char_count prompt) 8000
    && (is_nil script || is_file_name script)
    && (not no_agent || not (is_nil script))

abbrev pub truthy : Option Bool → Bool
truthy none = false
truthy (some b) = b

unfoldable pub deliver_of : String → Option String
deliver_of s = let d = if is_nil s then "origin" else s in passing (is_delivery d) d

unfoldable pub repeat_of : Option Whole → Option (Option ℕ)
repeat_of none = some none
repeat_of (some no_integer) = none
repeat_of (some negative) = none
repeat_of (some (whole n)) = if ltb 1000 n then none else some (some n)

unfoldable pub skill_of : String → Option String
skill_of s = passing (is_nil s || (leb (char_count s) 64 && is_file_name s)) s

unfoldable pub workdir_of : String → Option String
workdir_of s = passing (is_nil s || starts_with "/your/data/" s) s
