-- ===== src/Intent/Structure.antt =====
-- The answers of `classify_task_detail` of src/api/router.py that no meaning decides.
use simple_lcp.Prelude.{
  ℕ, ◌≤◌, ◌<◌, String, ◌≡◌, ◌≢◌, ◌⊎◌, inl, inr, refl, Option, none, some, List, string_eq, ltb,
  arith, length, Bool-cases, Option-cases,
}
use simple_lcp.Router.Scores.{Floats}
use simple_lcp.Intent.Signals.{agentic_multi_step_signals}
use simple_lcp.Intent.Said.{Said}
use simple_lcp.Intent.Tokens.{
  without_context, count_tokens, combined, system_text, first_keyword, casual_signals,
}
use simple_lcp.Intent.Classify.{ClassifyResult, by_words, by_size, by_structure}

module _ (N : Floats) (encode : String → Option ℕ) (round : N.F → N.F) where
  -- The task and the path of an answer that no meaning decided.
  abbrev pub Says : ClassifyResult N → String → String → Type 0
  Says r path task = (r.path ≡ path) × (r.task ≡ task) × (r.path ≢ "semantic")

  abbrev pub IsByWords : List Said → ClassifyResult N → Type 0
  IsByWords messages r =
      ((kw : String) × (first_keyword casual_signals (combined messages) ≡ some kw)
        × Says r "casual" "casual_chat")
      ⊎ ((first_keyword casual_signals (combined messages) ≡ none)
          × Says r "default" "code_generation")

  abbrev pub tokens_of : List Said → List String → ℕ
  tokens_of messages tools = count_tokens encode (without_context messages) tools

  abbrev pub IsBySize : List Said → List String → ClassifyResult N → Type 0
  IsBySize messages tools r =
      ((5 < length tools) × Says r "tool_count" "agentic_multi_step")
      ⊎ ((length tools ≤ 5)
          × (((8000 < tokens_of messages tools) × Says r "token_count" "research_deep")
              ⊎ ((tokens_of messages tools ≤ 8000) × IsByWords messages r)))

  -- The task that the structure of the conversation stands for: an agentic word of the system prompt,
  -- the number of the tools, the size, a casual word, in this order, or the default.
  abbrev pub IsByStructure : List Said → List String → ClassifyResult N → Type 0
  IsByStructure messages tools r =
      ((kw : String) × (first_keyword agentic_multi_step_signals (system_text messages) ≡ some kw)
        × Says r "agentic_prompt" "agentic_multi_step")
      ⊎ ((first_keyword agentic_multi_step_signals (system_text messages) ≡ none)
          × IsBySize messages tools r)

  words-IsByWords :
      (messages : List Said) (r : ClassifyResult N)
      → IsByWords messages (by_words N encode round messages r)
  unfolding by_words
  words-IsByWords messages r =
      elim (Option-cases (first_keyword casual_signals (combined messages))) [
        | inl e ↦
            rw (by_words, e)
              (inr
                (refl, (refl, refl, λ h. ground (arith, string_eq.beq_iff "default" "semantic"))))
        | inr (kw, e) ↦
            rw (by_words, e)
              (inl (
                kw,
                refl,
                (refl, refl, λ h. ground (arith, string_eq.beq_iff "casual" "semantic")),
              ))
      ]

  size-IsBySize :
      (messages : List Said) (tools : List String) (r : ClassifyResult N)
      → r.tool_count ≡ length tools
      → IsBySize messages tools (by_size N encode round messages tools r)
  unfolding by_size
  size-IsBySize messages tools r n = elim (Bool-cases (ltb 5 r.tool_count)) [
    | inl many ↦ rw many (
        inl (
          ground arith,
          (refl, refl, λ h. ground (arith, string_eq.beq_iff "tool_count" "semantic")),
        ))
    | inr few ↦ elim (Bool-cases (ltb 8000 (tokens_of messages tools))) [
      | inl long ↦
          rw (few, long)
            (inr (
              ground arith,
              inl (
                ground arith,
                (refl, refl, λ h. ground (arith, string_eq.beq_iff "token_count" "semantic")),
              ),
            ))
      | inr short ↦
          rw (few, short) (inr (ground arith, inr (ground arith, words-IsByWords messages r)))
    ]
  ]

  pub structure-IsByStructure :
      (messages : List Said) (tools : List String) (r : ClassifyResult N)
      → r.tool_count ≡ length tools
      → IsByStructure messages tools (by_structure N encode round messages tools r)
  unfolding by_structure
  structure-IsByStructure messages tools r n =
      elim (Option-cases (first_keyword agentic_multi_step_signals (system_text messages))) [
        | inl e ↦ rw (by_structure, e) (inr (refl, size-IsBySize messages tools r n))
        | inr (kw, e) ↦
            rw (by_structure, e)
              (inl (
                kw,
                refl,
                (refl, refl, λ h. ground (arith, string_eq.beq_iff "agentic_prompt" "semantic")),
              ))
      ]

  words-not_semantic :
      (messages : List Said) (r : ClassifyResult N) → IsByWords messages r → r.path ≢ "semantic"
  words-not_semantic messages r (inl (kw, e, (path, task, other))) = other
  words-not_semantic messages r (inr (e, (path, task, other))) = other

  pub structure-not_semantic :
      (messages : List Said) (tools : List String) (r : ClassifyResult N)
      → IsByStructure messages tools r
      → r.path ≢ "semantic"
  structure-not_semantic messages tools r (inl (kw, e, (path, task, other))) = other
  structure-not_semantic messages tools r (inr (e, inl (many, (path, task, other)))) = other
  structure-not_semantic messages tools r (inr (e, inr (few, inl (long, (path, task, other))))) =
      other
  structure-not_semantic messages tools r (inr (e, inr (few, inr (short, words)))) =
      words-not_semantic messages r words
