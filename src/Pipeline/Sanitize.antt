-- ===== src/Pipeline/Sanitize.antt =====
-- `sanitize_messages` of src/api/request_pipeline.py. Its sets of ids are lists here.
use simple_lcp.Prelude.{
  String, Bool, false, not, ◌&&◌, List, [], ◌∷◌, ◌++◌, string_eq, select, contains, if◌then◌else◌,
}
use simple_lcp.Pipeline.Message.{
  Field, absent, null, value, text, ToolCall, Message, get_or, calls_of, is_empty, has_content,
  is_calling, is_tool_reply, call_id, set_text,
}

unfoldable pub call_ids : List ToolCall → List String
call_ids [] = []
call_ids (tc ∷ cs) = set_text (call_id tc) ++ call_ids cs

-- the ids that the assistant messages declare
unfoldable pub declared_ids : List Message → List String
declared_ids [] = []
declared_ids (m ∷ ms) =
    if is_calling m then call_ids (calls_of m.tool_calls) ++ declared_ids ms else declared_ids ms

-- the ids that the tool messages answer
unfoldable pub referenced_ids : List Message → List String
referenced_ids [] = []
referenced_ids (m ∷ ms) =
    if is_tool_reply m then set_text m.tool_call_id ++ referenced_ids ms else referenced_ids ms

-- a - b
unfoldable pub minus : List String → List String → List String
minus xs ys = select (λ x. not (contains x ys)) xs

unfoldable pub ids_to_remove : List Message → List String
ids_to_remove ms =
    let declared = declared_ids ms in
    let referenced = referenced_ids ms in minus declared referenced ++ minus referenced declared

-- `x in ids`, for a value that may be None
abbrev pub in_ids : Field String → List String → Bool
in_ids (value s) ids = contains s ids
in_ids _ ids = false

unfoldable pub keep_call : List String → ToolCall → Bool
keep_call ids tc = not (in_ids (call_id tc) ids)

-- {"role": "user", "content": msg.get("content", "")}
unfoldable pub as_user : Message → Message
as_user m = record {
  role = value "user";
  content = get_or m.content (value (text ""));
  tool_calls = absent;
  tool_call_id = absent;
  reasoning_content = absent;
  name = absent;
  extra = [];
}

-- an assistant message left with the calls `kept`
unfoldable pub with_calls : Message → List ToolCall → List Message
with_calls m [] = if has_content m.content then record m { tool_calls = null } ∷ [] else []
with_calls m (tc ∷ cs) = record m { tool_calls = value (tc ∷ cs) } ∷ []

unfoldable pub sanitize_message : List String → Message → List Message
sanitize_message ids m =
    if is_tool_reply m && in_ids m.tool_call_id ids
    then as_user m ∷ []
    else if is_calling m
    then with_calls m (select (keep_call ids) (calls_of m.tool_calls))
    else m ∷ []

unfoldable pub sanitize_all : List String → List Message → List Message
sanitize_all ids [] = []
sanitize_all ids (m ∷ ms) = sanitize_message ids m ++ sanitize_all ids ms

unfoldable pub sanitize_messages : List Message → List Message
sanitize_messages ms =
    let ids = ids_to_remove ms in if is_empty ids then ms else sanitize_all ids ms
