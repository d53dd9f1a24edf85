-- ===== src/Chain/Prepared.antt =====
-- What `try_chain` (src/api/request_pipeline.py) sends to a provider.
use simple_lcp.Prelude.{ℕ, String, ◌≡◌, ◌∙◌, refl, Bool, true, false, ◌&&◌, some, List, map, All}
use simple_lcp.Pipeline.Message.{Message}
use simple_lcp.Pipeline.Normalize.{normalize_messages_for_cache, normalize_messages_ids}
use simple_lcp.Pipeline.Sanitize.{declared_ids, referenced_ids, sanitize_messages}
use simple_lcp.Pipeline.Ids.{declares, answers}
use simple_lcp.Pipeline.Balance.{sanitize_messages_balanced}
use simple_lcp.Reasoning.Store.{ReasoningStore, rehydrate}
use simple_lcp.Reasoning.Presence.{
  HasReasoning, ensure_thinking_reasoning_content, thinking_turns_have_reasoning, rehydrate-ids,
  inject_all-ids,
}
use simple_lcp.Reasoning.Recalled.{restored, answer, ensured-restored}
use simple_lcp.Chain.Forward.{Step, Body, Config}
use simple_lcp.Chain.Prepare.{prepare}

ensured-ids :
    (b : Bool) (ms : List Message) (now : ℕ) (s : ReasoningStore)
    → let ns = (ensure_thinking_reasoning_content b ms now s).0 in
      (declared_ids ns ≡ declared_ids ms) × (referenced_ids ns ≡ referenced_ids ms)
unfolding ensure_thinking_reasoning_content
ensured-ids false ms now s = (refl, refl)
ensured-ids true ms now s =
    let a = inject_all-ids (rehydrate ms now s).0 in
    let b = rehydrate-ids ms now s in (a.0 ∙ b.0, a.1 ∙ b.1)

-- The messages sent to any step declare a call id exactly if the given ones both declared and
-- answered it, and answer the same ids. If the step's model supports thinking, they are the
-- normalised and repaired ones, in which every calling turn without the key `reasoning_content` has
-- been given the first text that is not empty among those that the store holds, alive, for its call ids, or
-- the empty text if it holds none; so that every calling turn carries the key.
pub sent_messages_sound :
    (cfg : Config) (step : Step) (body : Body) (now : ℕ) (store : ReasoningStore)
    (ms : List Message)
    → body.messages ≡ some ms
    → (ns : List Message) × ((prepare cfg step body now store).0.messages ≡ some ns)
      × ((i : String) → declares ns i ≡ (declares ms i && answers ms i))
      × ((i : String) → answers ns i ≡ (declares ms i && answers ms i))
      × (cfg.supports_thinking step.model ≡ true
          → (ns
              ≡ map
                  (restored (answer store now))
                  (sanitize_messages (normalize_messages_for_cache ms)))
            × All HasReasoning ns)
unfolding prepare
sent_messages_sound cfg step body now store ms e =
    let normal = normalize_messages_for_cache ms in
    let clean = sanitize_messages normal in
    let thinking = cfg.supports_thinking step.model in
    let same = ensured-ids thinking clean now store in
    let ids = normalize_messages_ids ms in
    (
      (ensure_thinking_reasoning_content thinking clean now store).0,
      rw e,
      λ i. rw same.0 ((sanitize_messages_balanced normal i).0 ∙ rw (ids.0, ids.1)),
      λ i. rw same.1 ((sanitize_messages_balanced normal i).1 ∙ rw (ids.0, ids.1)),
      λ t. rw t (ensured-restored clean now store, thinking_turns_have_reasoning clean now store),
    )
