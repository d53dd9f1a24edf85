-- ===== src/Router/Sample.antt =====
-- The data of the router's runs: a registry of two models, with scores in hundredths. The negation of
-- these numbers is a reflection, which turns their order around as the floats' does.
use simple_lcp.Prelude.{
  arith, ℕ, ◌+◌, ◌-◌, ◌*◌, String, true, false, none, some, List, [], ◌∷◌, ◌==◌, string_eq, ltb,
  leb, if◌then◌else◌,
}
use simple_lcp.Breaker.Health.{Now}
use simple_lcp.Breaker.Table.{list_table}
use simple_lcp.Chain.Examples.{cfg, breaker}
use simple_lcp.Router.Names.{Registry}
use simple_lcp.Router.Scores.{Floats, Facts, unknown}
use simple_lcp.Router.Rules.{Rule, one}
use simple_lcp.Router.Choice.{IsOrdered}
use simple_lcp.Router.Select.{RouterState}
use simple_lcp.Router.Request.{Detail, Scope}

abbrev pub hundredths : Floats
hundredths = record {
  F = ℕ;
  lt = ltb;
  le = leb;
  add = λ x y. x + y;
  sub = λ x y. x - y;
  mul = λ x y. x * y;
  div = λ x y. x;
  neg = λ x. 100000 - x;
  hundredths = λ n. n;
}

pub hundredths-IsOrdered : IsOrdered hundredths
hundredths-IsOrdered = record {
  asymm = λ x y h. ground arith;
  irrefl = λ x. ground arith;
  trans = λ x y z g h. ground arith;
}

abbrev pub registry : Registry
registry =
    ("m1", record { benchmark_key = "m1-bench"; provider_mappings = ("closed", "vendor/m1") ∷ [] })
    ∷ ("m2", record { benchmark_key = "m2-bench"; provider_mappings = [] })
    ∷ []

abbrev pub facts : Facts hundredths
facts = record {
  registry = registry;
  matrix = ("planning", ("m1-bench", 70) ∷ ("m2-bench", 90) ∷ []) ∷ [];
  cost_bias = 15;
  get_model_limits = λ m. none;
  model_limits = λ m. if m == "m1" then some 10000 else none;
  credit_status = λ p. unknown;
  set_order = λ ms. ms;
  choices = λ ps. "m1";
}

abbrev pub rule : String → String → Rule hundredths
rule action model = record {
  action = action;
  enabled = true;
  profile = "*";
  task = one "planning";
  provider = "";
  model = model;
  min_score = none;
  policy = "";
}

abbrev pub scope : List (Rule hundredths) → Scope hundredths
scope rules = record {
  stored_enabled = some true;
  stored_policy = λ p. p;
  stored_min_score = λ s. s;
  stored_rules = rules;
  dynamic_routing = record { policy = none; min_score = none; rules = [] };
  intents = [];
  intent_margin_gate = 0;
}

abbrev pub planning : Detail hundredths
planning = record {
  task = "planning";
  path = "semantic";
  semantic = ("planning", some 80) ∷ [];
  token_count = 0;
}

abbrev pub start : RouterState hundredths facts list_table cfg "l2"
start = record { enabled = false; decisions = []; breaker = breaker }

abbrev pub noon : Now
noon = record { time = 0; iso = "2026-01-01" }
