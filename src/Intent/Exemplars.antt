-- ===== src/Intent/Exemplars.antt =====
-- The exemplar prompts of src/api/task_classifier.py, by task.
use simple_lcp.Prelude.{String, List, [], ◌∷◌}

abbrev agentic_multi_step_prompts : List String
agentic_multi_step_prompts =
    "You are an AI agent. Use the available tools to complete this multi-step task."
    ∷ "Use your tools to browse the web and gather information, then act on it."
    ∷ "Call the functions provided to fulfill this request step by step."
    ∷ "You have access to tools — delegate and execute the plan autonomously." ∷ []

abbrev unit_tests_prompts : List String
unit_tests_prompts =
    "Write a pytest suite covering this function's edge cases."
    ∷ "Add unit tests for the new module, including mocking the database."
    ∷ "Create test cases for the API endpoint and assert the responses."
    ∷ "Write a test for this bug to prevent regression."
    ∷ "Run the test suite and report which tests fail." ∷ []

abbrev code_generation_prompts : List String
code_generation_prompts =
    "Write a Python function that parses this CSV file."
    ∷ "Implement a REST endpoint in FastAPI that returns JSON."
    ∷ "Create a bash script to deploy this service."
    ∷ "Write a React component that renders a list of items."
    ∷ "Review this existing file and make the changes we discussed."
    ∷ "Refactor this function to be cleaner and update the callers."
    ∷ "Look at this code and fix the issue in this file."
    ∷ "Implement a sorting algorithm in Python."
    ∷ "Write a function that implements this algorithm."
    ∷ "Implement the binary search algorithm in code." ∷ "Start the implementation now."
    ∷ "Go ahead and implement it." ∷ "Implement this change." ∷ "Let's implement this feature."
    ∷ "Proceed with writing the code." ∷ []

abbrev debugging_prompts : List String
debugging_prompts =
    "Why does this code throw a KeyError? Here is the traceback."
    ∷ "Debug this failing test — it works locally but not in CI."
    ∷ "This endpoint returns 500. Help me find the bug."
    ∷ "The build is failing with an import error. What's wrong?" ∷ []

abbrev research_deep_prompts : List String
research_deep_prompts =
    "Explain how attention mechanisms work in transformers, in detail."
    ∷ "Analyze the trade-offs between SQL and NoSQL for this workload."
    ∷ "Compare and contrast microservices and monoliths thoroughly."
    ∷ "Research the latest approaches to vector databases and summarize." ∷ []

abbrev reasoning_chain_prompts : List String
reasoning_chain_prompts =
    "Solve this logic puzzle step by step." ∷ "Prove that this algorithm has O(n log n) complexity."
    ∷ "Calculate the time complexity of this recurrence relation."
    ∷ "Work through this mathematical problem carefully." ∷ []

abbrev planning_prompts : List String
planning_prompts =
    "Design the architecture for a multi-tenant SaaS product."
    ∷ "How should I structure this microservice codebase?"
    ∷ "Create a roadmap and data model for this new feature."
    ∷ "Plan the tech stack and schema for this application."
    ∷ "Create a step-by-step plan for this feature." ∷ "Plan out the approach for this component."
    ∷ "Let's plan the strategy for this change." ∷ []

abbrev casual_chat_prompts : List String
casual_chat_prompts = "hello" ∷ "hi, how are you?" ∷ "thanks!" ∷ "good morning" ∷ "what's up?" ∷ []

abbrev pub task_exemplars : List (String × List String)
task_exemplars =
    ("agentic_multi_step", agentic_multi_step_prompts)
    ∷ ("unit_tests", unit_tests_prompts)
    ∷ ("code_generation", code_generation_prompts)
    ∷ ("debugging", debugging_prompts)
    ∷ ("research_deep", research_deep_prompts)
    ∷ ("reasoning_chain", reasoning_chain_prompts)
    ∷ ("planning", planning_prompts)
    ∷ ("casual_chat", casual_chat_prompts)
    ∷ []
