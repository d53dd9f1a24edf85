-- ===== src/Pipeline/Message.antt =====
-- The chat messages that src/api/request_pipeline.py rewrites: JSON objects whose keys may be
-- absent, null or set. Keys that the code never names are kept together in `extra`.
use simple_lcp.Prelude.{
  String, Bool, true, false, not, ◌&&◌, List, [], ◌∷◌, ◌==◌, string_eq, if◌then◌else◌,
}

pub data Field {ℓ} (A : Type ℓ) : Type ℓ where
  absent null : Field A
  value : A → Field A

-- a block of a list-valued `content`
pub record Block : Type 0 where
  pub kind : Field String
  pub body : String

pub data Content : Type 0 where
  text : String → Content
  blocks : List Block → Content

pub record ToolCall : Type 0 where
  pub id : Field String
  pub tool_call_id : Field String
  pub body : String

pub record Message : Type 0 where
  pub role : Field String
  pub content : Field Content
  pub tool_calls : Field (List ToolCall)
  pub tool_call_id : Field String
  pub reasoning_content : Field String
  pub name : Field String
  pub extra : List (String × String)

-- x == "…", for a value that may be None
abbrev pub is_text : Field String → String → Bool
is_text (value s) t = s == t
is_text _ t = false

-- d.get(k, default)
abbrev pub get_or {ℓ} : {A : Type ℓ} → Field A → Field A → Field A
get_or absent d = d
get_or f d = f

-- the truth of a text, of a list, of a content
abbrev pub is_set : Field String → Bool
is_set (value s) = not (s == "")
is_set _ = false

abbrev pub calls_of : Field (List ToolCall) → List ToolCall
calls_of (value cs) = cs
calls_of _ = []

abbrev pub is_empty {ℓ} : {A : Type ℓ} → List A → Bool
is_empty [] = true
is_empty (x ∷ xs) = false

abbrev pub has_content : Field Content → Bool
has_content (value (text s)) = not (s == "")
has_content (value (blocks bs)) = not (is_empty bs)
has_content _ = false

-- msg.get("role") == "assistant" and msg.get("tool_calls")
unfoldable pub is_calling : Message → Bool
is_calling m = is_text m.role "assistant" && not (is_empty (calls_of m.tool_calls))

unfoldable pub is_tool_reply : Message → Bool
is_tool_reply m = is_text m.role "tool"

-- tc.get("id", tc.get("tool_call_id"))
unfoldable pub call_id : ToolCall → Field String
call_id tc = get_or tc.id (get_or tc.tool_call_id null)

-- The text of a value, if it is truthy.
abbrev pub set_text : Field String → List String
set_text (value s) = if s == "" then [] else s ∷ []
set_text _ = []
