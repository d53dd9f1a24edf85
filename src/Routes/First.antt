-- ===== src/Routes/First.antt =====
-- The contract of the route table of src/server/router.py: rules are matched in the order of their
-- registration, and the first match wins.
use simple_lcp.Prelude.{
  String, ◌≡◌, refl, ap, ◌∙◌, Bool, true, false, Option, none, some, List, [], ◌∷◌, ◌++◌, All,
  if◌then◌else◌,
}
use simple_lcp.Routes.Table.{
  Params, Matcher, Route, upper_text, add, attempt_rule, run_or, dispatch_upper, dispatch,
}

module _ (H : Type 0) (path_of : H → String) where
  -- No rule of the list takes the request.
  abbrev NoneTakes : List (Route H path_of) → H → String → Type 0
  NoneTakes rules h method = All (λ r. attempt_rule H path_of r h method ≡ none) rules

  -- How a request of the upper-case `method` ends.
  pub data Dispatched (rules : List (Route H path_of)) (h : H) (method : String)
      : Bool × H → Type 0 where
    missed : NoneTakes rules h method → Dispatched rules h method (false, h)
    taken :
        (before : List (Route H path_of)) (r : Route H path_of) (after : List (Route H path_of))
        (params : Params)
        → rules ≡ before ++ r ∷ after
        → NoneTakes before h method
        → attempt_rule H path_of r h method ≡ some params
        → Dispatched rules h method (true, r.action h params)

  later :
      (r : Route H path_of) (rules : List (Route H path_of)) (h : H) (method : String)
      {o : Bool × H}
      → attempt_rule H path_of r h method ≡ none
      → Dispatched rules h method o
      → Dispatched (r ∷ rules) h method o
  later r rules h method e (missed n) = missed (e, n)
  later r rules h method e (taken before s after params split n t) =
      taken (r ∷ before) s after params (ap (λ rs. r ∷ rs) split) (e, n) t

  turn :
      (r : Route H path_of) (rules : List (Route H path_of)) (h : H) (method : String)
      (o : Option Params) (rest : Bool × H)
      → attempt_rule H path_of r h method ≡ o
      → Dispatched rules h method rest
      → Dispatched (r ∷ rules) h method (run_or H path_of o r h rest)
  unfolding run_or
  turn r rules h method none rest e d = later r rules h method e d
  turn r rules h method (some params) rest e d = taken [] r rules params refl tt e

  dispatch_upper-Dispatched :
      (rules : List (Route H path_of)) (h : H) (method : String)
      → Dispatched rules h method (dispatch_upper H path_of rules h method)
  unfolding dispatch_upper
  dispatch_upper-Dispatched [] h method = missed tt
  dispatch_upper-Dispatched (r ∷ rules) h method =
      turn r rules h method (attempt_rule H path_of r h method)
        (dispatch_upper H path_of rules h method) refl (dispatch_upper-Dispatched rules h method)

  -- A request is handled by the first rule of its method whose matcher accepts its path, with the
  -- parameters that this matcher extracts, and by no other; if no rule accepts it, nothing is run and
  -- the handler is left as it is.
  dispatch_takes_first :
      (rules : List (Route H path_of)) (h : H) (method : String)
      → Dispatched rules h (upper_text method) (dispatch H path_of rules h method)
  unfolding dispatch
  dispatch_takes_first rules h method = dispatch_upper-Dispatched rules h (upper_text method)

  abbrev or_else : Bool × H → Bool × H → Bool × H
  or_else a b = if a.0 then a else b

  run_or-or_else :
      (o : Option Params) (r : Route H path_of) (h : H) (a b : Bool × H)
      → run_or H path_of o r h (or_else a b) ≡ or_else (run_or H path_of o r h a) b
  unfolding run_or
  run_or-or_else none r h a b = refl
  run_or-or_else (some params) r h a b = refl

  append-upper :
      (rules more : List (Route H path_of)) (h : H) (method : String)
      → dispatch_upper H path_of (rules ++ more) h method
        ≡ or_else (dispatch_upper H path_of rules h method) (dispatch_upper H path_of more h method)
  unfolding dispatch_upper
  append-upper [] more h method = refl
  append-upper (r ∷ rules) more h method =
      ap (run_or H path_of (attempt_rule H path_of r h method) r h)
        (append-upper rules more h method)
      ∙ run_or-or_else (attempt_rule H path_of r h method) r h _ _

  -- A rule that is registered later takes over no request that an earlier one handles: the new table
  -- handles these as the old one did, and the others as the new rule alone would.
  dispatch-add :
      (rules : List (Route H path_of)) (m name : String) (matcher : Matcher)
      (action : H → Params → H) (note : String) (h : H) (method : String)
      → dispatch H path_of (add H path_of m name matcher action note rules) h method ≡ (
          if (dispatch H path_of rules h method).0
          then dispatch H path_of rules h method
          else dispatch H path_of (add H path_of m name matcher action note []) h method)
  unfolding dispatch add
  dispatch-add rules m name matcher action note h method =
      append-upper rules (add H path_of m name matcher action note []) h (upper_text method)
