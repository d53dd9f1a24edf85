-- ===== src/Intent/Signals.antt =====
-- The words and phrases that src/api/message_norm.py looks for.
use simple_lcp.Prelude.{String, List, [], ◌∷◌}

abbrev pub agentic_multi_step_signals : List String
agentic_multi_step_signals =
    "you are an ai agent" ∷ "you are a coding agent" ∷ "autonomous" ∷ "multi-step" ∷ "multi step"
    ∷ "tools:" ∷ "function call" ∷ "tool call" ∷ []

abbrev unit_tests_signals : List String
unit_tests_signals =
    "unit test" ∷ "unit tests" ∷ "write tests" ∷ "write a test" ∷ "test case" ∷ "test cases"
    ∷ "test suite" ∷ "add tests" ∷ "create tests" ∷ "pytest" ∷ "unittest" ∷ "test coverage"
    ∷ "mocking" ∷ "mock object" ∷ "mock the" ∷ []

abbrev code_generation_signals : List String
code_generation_signals =
    "write a function" ∷ "implement" ∷ "create a script" ∷ "write code" ∷ "def " ∷ "class "
    ∷ "import " ∷ "write a program" ∷ "in python" ∷ "in javascript" ∷ "in rust" ∷ "in go" ∷ "html"
    ∷ "css" ∷ "react" ∷ []

abbrev debugging_signals : List String
debugging_signals =
    "debug" ∷ "error" ∷ "exception" ∷ "traceback" ∷ "stack trace" ∷ "why does this fail"
    ∷ "not working" ∷ "bug" ∷ "fix this" ∷ "what's wrong" ∷ []

abbrev research_deep_signals : List String
research_deep_signals =
    "explain" ∷ "analyze" ∷ "compare and contrast" ∷ "research" ∷ "literature review" ∷ "in detail"
    ∷ "comprehensive" ∷ "thorough" ∷ []

abbrev reasoning_chain_signals : List String
reasoning_chain_signals =
    "solve" ∷ "proof" ∷ "prove" ∷ "calculate" ∷ "logic puzzle" ∷ "step by step" ∷ "mathematical"
    ∷ "equation" ∷ "theorem" ∷ []

abbrev planning_signals : List String
planning_signals =
    "design" ∷ "architecture" ∷ "architect" ∷ "system design" ∷ "how should i structure" ∷ "roadmap"
    ∷ "data model" ∷ "schema" ∷ "tech stack" ∷ "plan the" ∷ "make a plan" ∷ "create a plan" ∷ []

-- the signals of the tasks in _SPECIFIC_TASKS, in its order
abbrev pub specific_signals : List (List String)
specific_signals =
    unit_tests_signals ∷ debugging_signals ∷ code_generation_signals ∷ planning_signals
    ∷ reasoning_chain_signals ∷ research_deep_signals ∷ []

abbrev pub tool_result_prefixes : List String
tool_result_prefixes =
    "[tool" ∷ "[tool result" ∷ "[function result" ∷ "[file result" ∷ "<tool_result" ∷ "<result>"
    ∷ "tool result" ∷ "tool ran without output" ∷ "tool call:" ∷ "[tool_call" ∷ "tool output:"
    ∷ "tool response:" ∷ "terminal output:" ∷ []

abbrev pub client_context_phrases : List String
client_context_phrases = "you just executed tool calls but returned an empty response" ∷ []

abbrev pub continuations : List String
continuations =
    "continue" ∷ "please continue" ∷ "continue please" ∷ "yes" ∷ "yeah" ∷ "yep" ∷ "ok" ∷ "okay"
    ∷ "go on" ∷ "keep going" ∷ "and then" ∷ "next" ∷ "proceed" ∷ "sounds good" ∷ "thanks"
    ∷ "thank you" ∷ "perfect" ∷ "great" ∷ "go ahead" ∷ "sure" ∷ "alright" ∷ "got it" ∷ "cool"
    ∷ "more" ∷ "ok then" ∷ []

abbrev pub short_instruction_starters : List String
short_instruction_starters =
    "fix" ∷ "write" ∷ "make" ∷ "create" ∷ "do" ∷ "explain" ∷ "plan" ∷ "debug" ∷ "run" ∷ "show"
    ∷ "give" ∷ "add" ∷ "change" ∷ "update" ∷ "remove" ∷ "help" ∷ "implement" ∷ "test" ∷ "review"
    ∷ "refactor" ∷ "analyze" ∷ "solve" ∷ "design" ∷ []
