-- ===== src/Intent/Classify.antt =====
-- `classify_task_detail` of src/api/router.py. The semantic classifier is a parameter, as is the encoding of
-- a text into tokens.
use simple_lcp.Prelude.{
  ℕ, String, Bool, true, false, Option, none, some, List, [], ◌∷◌, map, string_eq, ltb, length,
  if◌then◌else◌,
}
use simple_lcp.Router.Names.{lower_text, strip}
use simple_lcp.Router.Scores.{Floats}
use simple_lcp.Intent.Chars.{is_nil}
use simple_lcp.Intent.Signals.{agentic_multi_step_signals}
use simple_lcp.Intent.Said.{Said}
use simple_lcp.Intent.Walk.{Meta, extract_intent_text}
use simple_lcp.Intent.Tokens.{
  without_context, count_tokens, combined, user_text, system_text, first_keyword, casual_signals,
}

module _ (N : Floats) where
  -- `top_scores` of the classifier, for the five best; an exception is `none`
  pub record Classifier : Type 0 where
    pub min_score : N.F
    pub top_scores : String → Option (List (String × N.F))

  pub record ClassifyResult : Type 0 where
    pub task : String
    pub path : String
    pub keyword : Option String
    pub intent_text : String
    pub intent_meta : Meta
    pub semantic : Option (List (String × N.F))
    pub min_score : Option N.F
    pub sem_available : Bool
    pub tool_count : ℕ
    pub token_count : ℕ

  module _ (encode : String → Option ℕ) (round : N.F → N.F) where
    unfoldable pub result : String → String → String → Meta → ℕ → ClassifyResult
    result task path intent n tools = record {
      task = task;
      path = path;
      keyword = none;
      intent_text = intent;
      intent_meta = n;
      semantic = none;
      min_score = none;
      sem_available = false;
      tool_count = tools;
      token_count = 0;
    }

    abbrev rounded : List (String × N.F) → List (String × N.F)
    rounded scores = map (λ (s : String × N.F). (s.0, round s.1)) scores

    -- what the attempt at a semantic classification leaves: the scores, and the task if it is decided
    pub record Attempt : Type 0 where
      pub scores : Option (List (String × N.F))
      pub gate : Option N.F
      pub available : Bool
      pub decided : Option String

    unfoldable pub scored : N.F → Option (List (String × N.F)) → Attempt
    scored gate none = record { scores = none; gate = some gate; available = true; decided = none }
    scored gate (some []) = record {
      scores = none;
      gate = some gate;
      available = true;
      decided = none;
    }
    scored gate (some ((t, s) ∷ more)) = record {
      scores = some (rounded ((t, s) ∷ more));
      gate = some gate;
      available = true;
      decided = if N.le gate s then some t else none;
    }

    unfoldable pub attempt_semantic : Option Classifier → String → Attempt
    attempt_semantic none text = record {
      scores = none;
      gate = none;
      available = false;
      decided = none;
    }
    attempt_semantic (some c) text =
        if is_nil text
        then record { scores = none; gate = none; available = false; decided = none }
        else scored c.min_score (c.top_scores text)

    abbrev with_scores : Attempt → ClassifyResult → ClassifyResult
    with_scores a r = record r {
      semantic = a.scores;
      min_score = a.gate;
      sem_available = a.available;
    }

    -- the casual words, and the default
    unfoldable pub by_words : List Said → ClassifyResult → ClassifyResult
    by_words messages r = elim (first_keyword casual_signals (combined messages)) [
      | some kw ↦ record r { task = "casual_chat"; path = "casual"; keyword = some kw }
      | none ↦ record r { task = "code_generation"; path = "default" }
    ]

    unfoldable pub by_size : List Said → List String → ClassifyResult → ClassifyResult
    by_size messages tools r =
        let tokens = count_tokens encode (without_context messages) tools in
        let otherwise = by_words messages r in
        if ltb 5 r.tool_count
        then record r { task = "agentic_multi_step"; path = "tool_count" }
        else if ltb 8000 tokens
        then record r { task = "research_deep"; path = "token_count"; token_count = tokens }
        else otherwise

    -- the tests that do not look at the meaning
    unfoldable pub by_structure : List Said → List String → ClassifyResult → ClassifyResult
    by_structure messages tools r =
        elim (first_keyword agentic_multi_step_signals (system_text messages)) [
          | some kw ↦ record r {
            task = "agentic_multi_step";
            path = "agentic_prompt";
            keyword = some kw;
          }
          | none ↦ by_size messages tools r
        ]

    unfoldable pub by_meaning : Attempt → List Said → List String → ClassifyResult → ClassifyResult
    by_meaning a messages tools r = elim a.decided [
      | some t ↦ record (with_scores a r) { task = t; path = "semantic" }
      | none ↦ by_structure messages tools (with_scores a r)
    ]

    abbrev if_empty : String → String → String
    if_empty s t = if is_nil s then t else s

    unfoldable pub classify_task_detail :
        Option Classifier → List Said → List String → ClassifyResult
    classify_task_detail clf messages tools =
        let (raw, n) = extract_intent_text messages in
        let bare = strip (user_text messages) in
        let lower = if_empty (strip (lower_text raw)) bare in
        let r = result "" "" (if_empty (strip raw) bare) n (length tools) in
        if n.preamble
        then record r { task = "agentic_multi_step"; path = "preamble" }
        else by_meaning (attempt_semantic clf (strip lower)) messages tools r

    -- classify_task
    unfoldable classify_task : Option Classifier → List Said → List String → String
    classify_task clf messages tools = (classify_task_detail clf messages tools).task
