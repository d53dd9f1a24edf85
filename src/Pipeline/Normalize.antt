-- ===== src/Pipeline/Normalize.antt =====
-- `normalize_messages_for_cache` and `has_image_content` of src/api/request_pipeline.py.
use Prim.Native.Char.{Char, code}
use simple_lcp.Prelude.{
  ℕ, String, ◌≡◌, refl, Bool, true, false, ◌&&◌, ◌||◌, List, [], ◌∷◌, string_eq, arith, leb,
  nat_beq, any, Bool-cases, inl, inr, if◌then◌else◌,
}
use simple_lcp.Pipeline.Message.{
  Field, absent, null, value, Block, Content, text, blocks, Message, get_or, is_set, is_text,
  is_calling, is_tool_reply, set_text,
}
use simple_lcp.Pipeline.Sanitize.{declared_ids, referenced_ids}
use simple_lcp.Pipeline.Balance.{reply_is_no_call}

-- what `str.isspace` holds of
unfoldable pub is_space : ℕ → Bool
is_space c =
    (leb 9 c && leb c 13)
    || (leb 28 c && leb c 32)
    || nat_beq c 133
    || nat_beq c 160
    || nat_beq c 5760
    || (leb 8192 c && leb c 8202)
    || (leb 8232 c && leb c 8233)
    || nat_beq c 8239
    || nat_beq c 8287
    || nat_beq c 12288

abbrev is_blank : String → Bool
is_blank String.[] = true
is_blank (String.◌∷◌ c s) = false

push_char : Char → String → String
push_char c r = if is_blank r && is_space (code c) then String.[] else String.◌∷◌ c r

-- content.rstrip()
unfoldable pub rstrip : String → String
unfolding push_char
rstrip String.[] = String.[]
rstrip (String.◌∷◌ c s) = push_char c (rstrip s)

stripped : Field Content → Field Content
stripped (value (text s)) = value (text (rstrip s))
stripped f = f

-- the `content` of the normalised message
unfoldable pub normal_content : Message → Field Content
unfolding stripped
normal_content m =
    let content = get_or m.content (value (text "")) in
    if is_text m.role "system" then stripped content else content

-- entry["name"] is set only if msg.get("name") is truthy
abbrev truthy_name : Field String → Field String
truthy_name f = if is_set f then f else absent

unfoldable pub normalize_message : Message → Message
normalize_message m =
    let role = get_or m.role (value "user") in
    let content = normal_content m in
    if is_tool_reply m
    then record {
      role = role;
      content = content;
      tool_calls = absent;
      tool_call_id = get_or m.tool_call_id (value "");
      reasoning_content = absent;
      name = absent;
      extra = [];
    }
    else if is_calling m
    then record {
      role = role;
      content = content;
      tool_calls = m.tool_calls;
      tool_call_id = absent;
      reasoning_content = m.reasoning_content;
      name = truthy_name m.name;
      extra = [];
    }
    else record {
      role = role;
      content = content;
      tool_calls = absent;
      tool_call_id = absent;
      reasoning_content = if is_text m.role "assistant" then m.reasoning_content else absent;
      name = truthy_name m.name;
      extra = [];
    }

unfoldable pub normalize_messages_for_cache : List Message → List Message
normalize_messages_for_cache [] = []
normalize_messages_for_cache (m ∷ ms) = normalize_message m ∷ normalize_messages_for_cache ms

is_image : Block → Bool
is_image b = is_text b.kind "image_url"

content_has_image : Field Content → Bool
unfolding is_image
content_has_image (value (blocks bs)) = any is_image bs
content_has_image f = false

unfoldable pub has_image_content : List Message → Bool
unfolding content_has_image
has_image_content ms = any (λ (m : Message). content_has_image m.content) ms

push_char_fixed : (c : Char) (r : String) → rstrip r ≡ r → rstrip (push_char c r) ≡ push_char c r
unfolding rstrip push_char
push_char_fixed c r e = elim (Bool-cases (is_blank r && is_space (code c))) [
  | inl b ↦ rw b
  | inr b ↦ rw (b, e) (rw b)
]

rstrip_idem : (s : String) → rstrip (rstrip s) ≡ rstrip s
unfolding rstrip
rstrip_idem String.[] = refl
rstrip_idem (String.◌∷◌ c s) = push_char_fixed c (rstrip s) (rstrip_idem s)

stripped_idem : (f : Field Content) → stripped (stripped f) ≡ stripped f
unfolding stripped
stripped_idem absent = refl
stripped_idem null = refl
stripped_idem (value (text s)) = rw (rstrip_idem s)
stripped_idem (value (blocks bs)) = refl

normalize_message_idem :
    (m : Message) → normalize_message (normalize_message m) ≡ normalize_message m
unfolding normalize_message normal_content is_tool_reply is_calling
normalize_message_idem m = ground (arith, stripped_idem (get_or m.content (value (text ""))))

-- Normalising twice is normalising once.
normalize_messages_idem :
    (ms : List Message)
    → normalize_messages_for_cache (normalize_messages_for_cache ms)
      ≡ normalize_messages_for_cache ms
unfolding normalize_messages_for_cache
normalize_messages_idem [] = refl
normalize_messages_idem (m ∷ ms) = cc (normalize_message_idem m, normalize_messages_idem ms)

normalize_message_flags :
    (m : Message)
    → (is_calling (normalize_message m) ≡ is_calling m)
      × (is_tool_reply (normalize_message m) ≡ is_tool_reply m)
unfolding normalize_message is_tool_reply is_calling
normalize_message_flags m = (ground (arith, reply_is_no_call m), ground arith)

normalize_message_calls :
    (m : Message)
    → is_calling m ≡ true
    → ((normalize_message m).tool_calls ≡ m.tool_calls)
      × ((normalize_message m).reasoning_content ≡ m.reasoning_content)
unfolding normalize_message is_tool_reply is_calling
normalize_message_calls m h = ground (arith, reply_is_no_call m)

normalize_message_reply :
    (m : Message)
    → is_tool_reply m ≡ true
    → set_text (normalize_message m).tool_call_id ≡ set_text m.tool_call_id
unfolding normalize_message is_tool_reply
normalize_message_reply m h = ground arith

-- Normalising changes neither the ids that the assistant declares, nor those that the tools answer.
pub normalize_messages_ids :
    (ms : List Message)
    → (declared_ids (normalize_messages_for_cache ms) ≡ declared_ids ms)
      × (referenced_ids (normalize_messages_for_cache ms) ≡ referenced_ids ms)
unfolding normalize_messages_for_cache declared_ids referenced_ids
normalize_messages_ids [] = (refl, refl)
normalize_messages_ids (m ∷ ms) =
    let flags = normalize_message_flags m in
    let (ds, rs) = normalize_messages_ids ms in
    (
      elim (Bool-cases (is_calling m)) [
        | inl e ↦ rw (flags.0, e, (normalize_message_calls m e).0, ds)
        | inr e ↦ rw (flags.0, e, ds)
      ],
      elim (Bool-cases (is_tool_reply m)) [
        | inl e ↦ rw (flags.1, e, normalize_message_reply m e, rs)
        | inr e ↦ rw (flags.1, e, rs)
      ],
    )
