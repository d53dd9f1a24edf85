-- ===== src/Routes/Examples.antt =====
-- A table of two rules, in the way of src/server/router.py. The handler is its path and what was run.
use simple_lcp.Prelude.{String, ◌≡◌, refl, true, List, [], ◌∷◌, string_eq, contains}
use simple_lcp.Routes.Table.{
  Params, Route, exact, prefix, without_query, upper_text, attempt_rule, run_or, dispatch_upper,
  dispatch,
}

pub record Handler : Type 0 where
  pub path : String
  pub ran : List String

abbrev path_of : Handler → String
path_of h = h.path

abbrev note_run : String → Handler → Params → Handler
note_run name h params = record h { ran = name ∷ h.ran }

abbrev rules : List (Route Handler path_of)
rules =
    record {
      method = "GET";
      name = "status";
      matcher = exact ("/api/status" ∷ []);
      action = note_run "status";
      note = "";
    }
    ∷ record {
      method = "GET";
      name = "any";
      matcher = prefix "/api/";
      action = note_run "any";
      note = "";
    }
    ∷ []

abbrev asked : Handler
asked = record { path = "/api/status?full=1"; ran = [] }

-- The query is ignored, and the second rule is not run, though it matches too.
status_is_run : dispatch Handler path_of rules asked "get" ≡ (true, note_run "status" asked [])
unfolding dispatch dispatch_upper attempt_rule run_or without_query upper_text exact contains
status_is_run = refl
