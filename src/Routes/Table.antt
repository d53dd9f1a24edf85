-- ===== src/Routes/Table.antt =====
-- The matchers and the table of src/server/router.py. An action acts on the handler, whose path is
-- read through a parameter; a compiled pattern is a function from a path to its named groups.
use Prim.Native.Char.{code}
use simple_lcp.Prelude.{
  ℕ, String, Bool, true, false, ◌&&◌, ◌||◌, Option, none, some, List, [], ◌∷◌, ◌++◌, ◌==◌,
  string_eq, nat_beq, contains, count_if, if◌then◌else◌,
}
use simple_lcp.Router.Names.{shift}

abbrev pub Params : Type 0
Params = List (String × String)

-- the path, and the path without its query
abbrev pub Matcher : Type 0
Matcher = String → String → Option Params

-- path.split("?", 1)[0]
unfoldable pub without_query : String → String
without_query String.[] = String.[]
without_query (String.◌∷◌ c s) =
    let rest = without_query s in if nat_beq (code c) 63 then String.[] else String.◌∷◌ c rest

-- s.startswith(p)
unfoldable pub starts_with : String → String → Bool
starts_with String.[] s = true
starts_with (String.◌∷◌ c p) String.[] = false
starts_with (String.◌∷◌ c p) (String.◌∷◌ d s) = nat_beq (code c) (code d) && starts_with p s

-- s.endswith(p)
unfoldable pub ends_with : String → String → Bool
ends_with p String.[] = p == ""
ends_with p (String.◌∷◌ d s) = p == String.◌∷◌ d s || ends_with p s

abbrev when : Bool → Option Params
when true = some []
when false = none

unfoldable pub exact : List String → Matcher
exact paths path bare = when (contains bare paths)

unfoldable pub prefix : String → Matcher
prefix pre path bare = when (starts_with pre bare)

unfoldable suffix : String → Matcher
suffix suf path bare = when (ends_with suf bare)

unfoldable prefix_suffix : String → String → Matcher
prefix_suffix pre suf path bare = when (starts_with pre bare && ends_with suf bare)

unfoldable regex : (String → Option Params) → Matcher
regex compiled path bare = compiled bare

unfoldable pub any_of : List Matcher → Matcher
any_of [] path bare = none
any_of (m ∷ ms) path bare =
    let later = any_of ms path bare in elim (m path bare) [ none ↦ later | some got ↦ some got ]

-- s.upper(), on the ASCII letters
unfoldable pub upper_text : String → String
unfolding shift
upper_text String.[] = String.[]
upper_text (String.◌∷◌ c s) =
    String.◌∷◌ (shift "abcdefghijklmnopqrstuvwxyz" "ABCDEFGHIJKLMNOPQRSTUVWXYZ" c) (upper_text s)

module _ (H : Type 0) (path_of : H → String) where
  pub record Route : Type 0 where
    pub method : String
    pub name : String
    pub matcher : Matcher
    pub action : H → Params → H
    pub note : String

  -- `add` of RouteTable
  unfoldable pub add :
      String → String → Matcher → (H → Params → H) → String → List Route → List Route
  add method name matcher action note rules =
      rules
      ++ record {
        method = upper_text method;
        name = name;
        matcher = matcher;
        action = action;
        note = note;
      }
        ∷ []

  unfoldable pub count : Option String → List Route → ℕ
  count none rules = count_if (λ (r : Route). true) rules
  count (some method) rules = count_if (λ (r : Route). r.method == upper_text method) rules

  -- what one rule makes of a request of an upper-case method
  unfoldable pub attempt_rule : Route → H → String → Option Params
  attempt_rule r h method =
      if r.method == method then r.matcher (path_of h) (without_query (path_of h)) else none

  unfoldable pub run_or : Option Params → Route → H → Bool × H → Bool × H
  run_or none r h later = later
  run_or (some params) r h later = (true, r.action h params)

  unfoldable pub dispatch_upper : List Route → H → String → Bool × H
  dispatch_upper [] h method = (false, h)
  dispatch_upper (r ∷ rules) h method =
      run_or (attempt_rule r h method) r h (dispatch_upper rules h method)

  unfoldable pub dispatch : List Route → H → String → Bool × H
  dispatch rules h method = dispatch_upper rules h (upper_text method)
