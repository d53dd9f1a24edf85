-- ===== src/Reasoning/Store.antt =====
-- `ReasoningStore` of src/api/reasoning_store.py: two dictionaries under one set of keys, with a
-- time to live and a bound on the entries. `now` is what `time.time()` reads.
use simple_lcp.Prelude.{
  ℕ, zero, suc, ◌+◌, ◌-◌, String, Bool, true, false, not, ◌&&◌, Option, none, some, List, [], ◌∷◌,
  ◌==◌, string_eq, ltb, length, lookup, insert, remove, if◌then◌else◌,
}
use simple_lcp.Pipeline.Message.{
  Field, absent, value, ToolCall, Message, calls_of, is_calling, call_id,
}

pub record ReasoningStore : Type 0 where
  pub by_tool_call_id : List (String × String)
  pub stored_at : List (String × ℕ)
  pub ttl : ℕ
  pub max_entries : ℕ

unfoldable pub forget : ReasoningStore → String → ReasoningStore
forget s k = record s {
  by_tool_call_id = remove k s.by_tool_call_id;
  stored_at = remove k s.stored_at;
}

unfoldable forget_all : List String → ReasoningStore → ReasoningStore
forget_all [] s = s
forget_all (k ∷ ks) s = forget_all ks (forget s k)

-- now - t > self._ttl
unfoldable pub is_expired : ℕ → ℕ → ℕ → Bool
is_expired now t ttl = ltb (t + ttl) now

expired_keys : ℕ → ℕ → List (String × ℕ) → List String
expired_keys now ttl [] = []
expired_keys now ttl ((k, t) ∷ m) =
    if is_expired now t ttl then k ∷ expired_keys now ttl m else expired_keys now ttl m

-- sorted(self._stored_at, key=self._stored_at.get)
insert_by_age : String × ℕ → List (String × ℕ) → List (String × ℕ)
insert_by_age (k, t) [] = (k, t) ∷ []
insert_by_age (k, t) ((j, u) ∷ m) =
    if ltb u t then (j, u) ∷ insert_by_age (k, t) m else (k, t) ∷ (j, u) ∷ m

by_age : List (String × ℕ) → List (String × ℕ)
unfolding insert_by_age
by_age [] = []
by_age (e ∷ m) = insert_by_age e (by_age m)

first_keys : ℕ → List (String × ℕ) → List String
first_keys zero m = []
first_keys (suc n) [] = []
first_keys (suc n) ((k, t) ∷ m) = k ∷ first_keys n m

unfoldable prune : ReasoningStore → ℕ → ReasoningStore
unfolding expired_keys by_age first_keys
prune s now =
    let live = forget_all (expired_keys now s.ttl s.stored_at) s in
    let overflow = length live.by_tool_call_id - live.max_entries in
    forget_all (first_keys overflow (by_age live.stored_at)) live

store_ids : List String → String → ℕ → ReasoningStore → ReasoningStore
store_ids [] rc now s = s
store_ids (k ∷ ks) rc now s = store_ids ks rc now (
    if k == "" then s else record s {
      by_tool_call_id = insert k rc s.by_tool_call_id;
      stored_at = insert k now s.stored_at;
    })

-- an empty list of ids is ignored
unfoldable capture : ReasoningStore → List String → String → ℕ → ReasoningStore
unfolding store_ids
capture s [] reasoning now = s
capture s (k ∷ ks) reasoning now = prune (store_ids (k ∷ ks) reasoning now s) now

stored_text : ReasoningStore → String → ℕ → Option ℕ → Option String × ReasoningStore
stored_text s k now none = (none, s)
stored_text s k now (some t) =
    if is_expired now t s.ttl then (none, forget s k) else (lookup k s.by_tool_call_id, s)

unfoldable pub get_for_tool_call_id : ReasoningStore → String → ℕ → Option String × ReasoningStore
unfolding stored_text
get_for_tool_call_id s k now =
    if k == "" then (none, s) else stored_text s k now (lookup k s.stored_at)

-- rc is attached if it is not empty, and the loop over the calls ends
abbrev found_text : Option String → Bool
found_text none = false
found_text (some rc) = not (rc == "")

abbrev pub call_key : Field String → String
call_key (value k) = k
call_key _ = ""

unfoldable pub first_reasoning : List ToolCall → ℕ → ReasoningStore → Field String × ReasoningStore
first_reasoning [] now s = (absent, s)
first_reasoning (tc ∷ cs) now s =
    let (rc, s') = get_for_tool_call_id s (call_key (call_id tc)) now in
    let rest = first_reasoning cs now s' in
    elim rc [ none ↦ rest | some text ↦ if text == "" then rest else (value text, s') ]

-- "reasoning_content" in msg
abbrev pub is_present : Field String → Bool
is_present absent = false
is_present _ = true

unfoldable pub rehydrate_message : Message → ℕ → ReasoningStore → Message × ReasoningStore
rehydrate_message m now s =
    if is_calling m && not (is_present m.reasoning_content)
    then (let (rc, s') = first_reasoning (calls_of m.tool_calls) now s in
        (record m { reasoning_content = rc }, s'))
    else (m, s)

unfoldable pub rehydrate : List Message → ℕ → ReasoningStore → List Message × ReasoningStore
rehydrate [] now s = ([], s)
rehydrate (m ∷ ms) now s =
    let (m', s') = rehydrate_message m now s in
    let (ms', s'') = rehydrate ms now s' in (m' ∷ ms', s'')
