-- ===== src/Intent/Tokens.antt =====
-- The texts that `classify_task_detail` of src/api/router.py searches, and the count of tokens of
-- src/api/cost_estimator.py. The encoding of a text into tokens and `str` of a tool are parameters.
use Prim.Native.Nat.{◌/◌}
use Prim.Native.String.{◌++◌ as join_text}
use simple_lcp.Prelude.{
  ℕ, ◌+◌, max, String, Option, none, some, List, [], ◌∷◌, ◌==◌, string_eq, if◌then◌else◌,
}
use simple_lcp.Profiles.Fields.{char_count}
use simple_lcp.Router.Names.{lower_text}
use simple_lcp.Intent.Chars.{is_nil, is_in}
use simple_lcp.Intent.Said.{
  Block, Content, plain, blocks, no_content, Said, content_text, is_client_context,
}
use simple_lcp.Intent.Tags.{context_tail, strip_chat_mentions}

-- `_strip_client_context_from_messages`
unfoldable pub without_context : List Said → List Said
without_context [] = []
without_context (m ∷ ms) =
    let rest = without_context ms in
    if is_client_context (content_text m.content)
    then elim (context_tail (content_text m.content)) [
      | none ↦ rest
      | some tail ↦ record m { content = plain tail } ∷ rest
    ]
    else m ∷ rest

module _ (encode : String → Option ℕ) where
  abbrev or_fallback : String → Option ℕ → ℕ
  or_fallback text none = max (char_count text / 4) 1
  or_fallback text (some n) = n

  unfoldable pub count_text : String → ℕ
  count_text text = if is_nil text then 0 else or_fallback text (encode text)

  abbrev pub given : Option String → String
  given none = ""
  given (some s) = s

  abbrev count_block : Option Block → ℕ
  count_block none = 0
  count_block (some b) = if b.kind == "text" then count_text (given b.text) else 0

  count_blocks : List (Option Block) → ℕ
  count_blocks [] = 0
  count_blocks (b ∷ bs) = count_block b + count_blocks bs

  unfoldable pub count_content : Content → ℕ
  unfolding count_blocks
  count_content (plain s) = count_text s
  count_content (blocks bs) = count_blocks bs
  count_content no_content = 0

  count_messages : List Said → ℕ
  count_messages [] = 0
  count_messages (m ∷ ms) = 4 + count_content m.content + count_messages ms

  -- the text of a tool stands for the tool
  count_tools : List String → ℕ
  count_tools [] = 0
  count_tools (t ∷ ts) = count_text t + count_tools ts

  unfoldable pub count_tokens : List Said → List String → ℕ
  unfolding count_messages count_tools
  count_tokens messages tools = count_messages messages + count_tools tools

-- what one message adds to the text that is searched
unfoldable pub chunk : Said → String
chunk m =
    let text = content_text m.content in
    if is_client_context text
    then elim (context_tail text) [
      | none ↦ ""
      | some tail ↦ join_text (lower_text (strip_chat_mentions tail)) " "
    ]
    else join_text (lower_text (strip_chat_mentions text)) " "

unfoldable pub combined : List Said → String
combined [] = ""
combined (m ∷ ms) =
    let rest = combined ms in if m.role == "system" then rest else join_text (chunk m) rest

unfoldable pub user_text : List Said → String
user_text [] = ""
user_text (m ∷ ms) =
    let rest = user_text ms in if m.role == "user" then join_text (chunk m) rest else rest

abbrev plain_or_empty : Content → String
plain_or_empty (plain s) = lower_text s
plain_or_empty _ = ""

unfoldable pub system_text : List Said → String
system_text [] = ""
system_text (m ∷ ms) = if m.role == "system" then plain_or_empty m.content else ""

-- the first keyword that is in the text
unfoldable pub first_keyword : List String → String → Option String
first_keyword [] text = none
first_keyword (kw ∷ kws) text =
    let rest = first_keyword kws text in if is_in kw text then some kw else rest

abbrev pub casual_signals : List String
casual_signals =
    "hello" ∷ "hi " ∷ "hey" ∷ "thanks" ∷ "thank you" ∷ "how are you" ∷ "what's up" ∷ "good morning"
    ∷ "good night" ∷ []
