-- ===== src/Reasoning/Examples.antt =====
-- Runs of the store of src/api/reasoning_store.py.
use simple_lcp.Prelude.{◌≡◌, refl, some, [], ◌∷◌, lookup, string_eq}
use simple_lcp.Reasoning.Store.{ReasoningStore, is_expired, get_for_tool_call_id}

abbrev kept : ReasoningStore
kept = record {
  by_tool_call_id = ("a", "because") ∷ [];
  stored_at = ("a", 100) ∷ [];
  ttl = 3600;
  max_entries = 1000;
}

kept_answers : (get_for_tool_call_id kept "a" 200).0 ≡ some "because"
unfolding get_for_tool_call_id lookup is_expired
kept_answers = refl
