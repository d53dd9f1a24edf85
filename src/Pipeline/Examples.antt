-- ===== src/Pipeline/Examples.antt =====
-- Runs of the message and error rules of src/api/request_pipeline.py.
use simple_lcp.Prelude.{ℕ, suc, ◌<◌, max, String, ◌≡◌, Bool, true, ◌&&◌, List, [], ◌∷◌, ltb}
use simple_lcp.Pipeline.Message.{absent, value, text, ToolCall, Message}
use simple_lcp.Pipeline.Sanitize.{sanitize_messages}
use simple_lcp.Pipeline.Ids.{declares, answers}
use simple_lcp.Pipeline.Balance.{sanitize_messages_balanced}
use simple_lcp.Pipeline.Tools.{Tool}
use simple_lcp.Pipeline.Retry.{
  RetryConfig, attempt_start, call_with_retry, retry_stops_at_first_decision,
}

abbrev plain : String → String → Message
plain role content = record {
  role = value role;
  content = value (text content);
  tool_calls = absent;
  tool_call_id = absent;
  reasoning_content = absent;
  name = absent;
  extra = [];
}

abbrev call : String → ToolCall
call id = record { id = value id; tool_call_id = absent; body = "{}" }

abbrev calling : List ToolCall → Message
calling cs = record (plain "assistant" "") { tool_calls = value cs }

abbrev reply : String → Message
reply id = record (plain "tool" "ok") { tool_call_id = value id }

-- One call is answered, one is not, and one reply answers no call.
abbrev history : List Message
history =
    plain "system" "be brief  "
    ∷ plain "user" "hi"
    ∷ calling (call "a" ∷ call "b" ∷ [])
    ∷ reply "a"
    ∷ reply "z"
    ∷ []

sanitize_messages_balanced_example :
    (declares (sanitize_messages history) "b" ≡ (declares history "b" && answers history "b"))
    × (answers (sanitize_messages history) "b" ≡ (declares history "b" && answers history "b"))
sanitize_messages_balanced_example = sanitize_messages_balanced history "b"

abbrev tool : String → Tool
tool name = record { fn_name = value name; body = "{}" }

abbrev toolbox : List Tool
toolbox = tool "write" ∷ tool "bash" ∷ tool "read" ∷ []

abbrev retry_seed : RetryConfig
retry_seed = record {
  max_attempts = 3;
  backoff_base = 1000;
  backoff_multiplier = 2;
  max_backoff = 8000;
  jitter = true;
}

-- An upstream that fails twice: the world counts the requests.
abbrev fails_twice : ℕ → Bool × ℕ
fails_twice w = (ltb w 2, suc w)

abbrev no_pause : ℕ → ℕ → ℕ
no_pause k w = w

retry_stops_at_first_decision_example :
    (n : ℕ) × (n < max 1 retry_seed.max_attempts)
    × (call_with_retry (λ (b : Bool). b) fails_twice retry_seed no_pause 0
        ≡ fails_twice (attempt_start (λ (b : Bool). b) fails_twice no_pause 0 n 0))
    × ((j : ℕ)
        → j < n
        → (fails_twice (attempt_start (λ (b : Bool). b) fails_twice no_pause 0 j 0)).0 ≡ true)
    × ((call_with_retry (λ (b : Bool). b) fails_twice retry_seed no_pause 0).0 ≡ true
        → suc n ≡ max 1 retry_seed.max_attempts)
retry_stops_at_first_decision_example =
    retry_stops_at_first_decision (λ (b : Bool). b) fails_twice retry_seed no_pause 0
