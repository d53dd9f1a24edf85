-- ===== src/Chain/Prepare.antt =====
-- What is sent to a step of the chain, and the key of its breaker entry: src/api/request_pipeline.py
-- (`try_chain`, lines 863 to 946).
use simple_lcp.Prelude.{
  ℕ, String, Bool, Option, none, some, List, [], ◌==◌, string_eq, if◌then◌else◌,
}
use simple_lcp.Breaker.Health.{Key}
use simple_lcp.Pipeline.Message.{Field, value, Message}
use simple_lcp.Pipeline.Tools.{Tool}
use simple_lcp.Pipeline.ToolOrder.{normalize_tools_for_cache}
use simple_lcp.Pipeline.Normalize.{normalize_messages_for_cache, has_image_content}
use simple_lcp.Pipeline.Sanitize.{sanitize_messages}
use simple_lcp.Reasoning.Store.{ReasoningStore}
use simple_lcp.Reasoning.Presence.{ensure_thinking_reasoning_content}
use simple_lcp.Chain.Forward.{Step, Body, Config}

-- step.get("base_url") or config.providers.get(provider_name, {}).get("api_base", "")
unfoldable pub base_url_of : Config → Step → String
base_url_of cfg step = elim step.base_url [
  | none ↦ cfg.api_base step.provider
  | some u ↦ if u == "" then cfg.api_base step.provider else u
]

unfoldable pub key_of : Config → String → Step → Key
key_of cfg profile step = record {
  provider = step.provider;
  base_url = base_url_of cfg step;
  profile = profile;
}

normal_tools : Field (List Tool) → Field (List Tool)
normal_tools (value ts) = value (normalize_tools_for_cache ts)
normal_tools f = f

prepare_messages :
    Config
    → String
    → Option (List Message)
    → ℕ
    → ReasoningStore
    → Option (List Message) × ReasoningStore
prepare_messages cfg model none now s = (none, s)
prepare_messages cfg model (some ms) now s =
    let (ms', s') =
      ensure_thinking_reasoning_content (cfg.supports_thinking model)
        (sanitize_messages (normalize_messages_for_cache ms)) now s in
    (some ms', s')

-- The body that is sent to a step: the model translated for the provider, the messages normalised,
-- repaired and given their reasoning, the tools sorted.
unfoldable pub prepare : Config → Step → Body → ℕ → ReasoningStore → Body × ReasoningStore
unfolding normal_tools prepare_messages
prepare cfg step body now s =
    let (ms, s') = prepare_messages cfg step.model body.messages now s in
    (
      record {
        model = cfg.api_model step.provider step.model;
        messages = ms;
        tools = normal_tools body.tools;
      },
      s',
    )

-- The messages that the vision check reads.
abbrev messages_or_none : Option (List Message) → List Message
messages_or_none none = []
messages_or_none (some ms) = ms

unfoldable pub needs_vision : Body → Bool
needs_vision body = has_image_content (messages_or_none body.messages)
