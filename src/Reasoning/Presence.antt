-- ===== src/Reasoning/Presence.antt =====
-- `ensure_thinking_reasoning_content` of src/api/request_pipeline.py over the store of
-- src/api/reasoning_store.py, and what the two guarantee.
use simple_lcp.Prelude.{
  ℕ, ◌+◌, ◌≤◌, String, ◌≡◌, refl, Bool, true, false, not, ◌&&◌, some, List, [], ◌∷◌, string_eq,
  arith, All, lookup, if◌then◌else◌,
}
use simple_lcp.Pipeline.Message.{value, Message, is_calling, is_tool_reply}
use simple_lcp.Pipeline.Sanitize.{declared_ids, referenced_ids}
use simple_lcp.Reasoning.Store.{
  ReasoningStore, is_expired, get_for_tool_call_id, is_present, rehydrate_message, rehydrate,
}

-- msg["reasoning_content"] = "", where a calling turn still has none
unfoldable pub inject_placeholder : Message → Message
inject_placeholder m =
    if is_calling m && not (is_present m.reasoning_content)
    then record m { reasoning_content = value "" }
    else m

unfoldable pub inject_all : List Message → List Message
inject_all [] = []
inject_all (m ∷ ms) = inject_placeholder m ∷ inject_all ms

-- Both layers, if the target model supports thinking.
unfoldable pub ensure_thinking_reasoning_content :
    Bool → List Message → ℕ → ReasoningStore → List Message × ReasoningStore
ensure_thinking_reasoning_content false ms now s = (ms, s)
ensure_thinking_reasoning_content true ms now s =
    let (ms', s') = rehydrate ms now s in (inject_all ms', s')

-- An entry is given back only while it is alive: stored at a time whose time to live has not passed.
get_is_fresh :
    (s : ReasoningStore) (k : String) (now : ℕ) {text : String}
    → (get_for_tool_call_id s k now).0 ≡ some text
    → (t : ℕ) × (lookup k s.stored_at ≡ some t)
      × (now ≤ t + s.ttl)
      × (lookup k s.by_tool_call_id ≡ some text)
unfolding get_for_tool_call_id is_expired
get_is_fresh s k now h = ground arith

-- Every calling turn carries the key.
abbrev pub HasReasoning : Message → Type 0
HasReasoning m = is_calling m ≡ true → is_present m.reasoning_content ≡ true

inject_all-HasReasoning : (ms : List Message) → All HasReasoning (inject_all ms)
unfolding inject_all inject_placeholder is_calling
inject_all-HasReasoning [] = tt
inject_all-HasReasoning (m ∷ ms) = (λ h. ground arith, inject_all-HasReasoning ms)

-- For a model that supports thinking, every assistant turn with tool calls carries
-- `reasoning_content`, whatever the store holds.
pub thinking_turns_have_reasoning :
    (ms : List Message) (now : ℕ) (s : ReasoningStore)
    → All HasReasoning (ensure_thinking_reasoning_content true ms now s).0
unfolding ensure_thinking_reasoning_content
thinking_turns_have_reasoning ms now s = inject_all-HasReasoning (rehydrate ms now s).0

-- The fields that the repair of tool calls reads.
abbrev SameCalls : Message → Message → Type 0
SameCalls m n =
    (is_calling n ≡ is_calling m)
    × (is_tool_reply n ≡ is_tool_reply m)
    × (n.tool_calls ≡ m.tool_calls)
    × (n.tool_call_id ≡ m.tool_call_id)

rehydrate_message-same :
    (m : Message) (now : ℕ) (s : ReasoningStore) → SameCalls m (rehydrate_message m now s).0
unfolding rehydrate_message is_calling is_tool_reply
rehydrate_message-same m now s = ground arith

inject-same : (m : Message) → SameCalls m (inject_placeholder m)
unfolding inject_placeholder is_calling is_tool_reply
inject-same m = ground arith

pub rehydrate-ids :
    (ms : List Message) (now : ℕ) (s : ReasoningStore)
    → (declared_ids (rehydrate ms now s).0 ≡ declared_ids ms)
      × (referenced_ids (rehydrate ms now s).0 ≡ referenced_ids ms)
unfolding rehydrate declared_ids referenced_ids
rehydrate-ids [] now s = (refl, refl)
rehydrate-ids (m ∷ ms) now s =
    let same = rehydrate_message-same m now s in
    let ih = rehydrate-ids ms now (rehydrate_message m now s).1 in
    (rw (same.0, same.2, ih.0), rw (same.1, same.3, ih.1))

pub inject_all-ids :
    (ms : List Message)
    → (declared_ids (inject_all ms) ≡ declared_ids ms)
      × (referenced_ids (inject_all ms) ≡ referenced_ids ms)
unfolding inject_all declared_ids referenced_ids
inject_all-ids [] = (refl, refl)
inject_all-ids (m ∷ ms) =
    let same = inject-same m in
    let ih = inject_all-ids ms in (rw (same.0, same.2, ih.0), rw (same.1, same.3, ih.1))
