-- ===== src/Cache/Examples.antt =====
-- Runs of the prompt cache (src/api/prompt_cache.py) with room for one answer.
use simple_lcp.Prelude.{
  ◌+◌, ◌≤◌, String, ◌≡◌, none, some, List, [], ◌∷◌, arith, ltb, length, if◌then◌else◌,
}
use simple_lcp.Cache.Store.{Cache, Call, gets, sets, get, set, run}
use simple_lcp.Cache.Bounds.{run_bounded, set_then_get}

abbrev full : Cache String
full = record {
  entries = ("k", record { expires = 10; response = "hi" }) ∷ [];
  ttl = 3600;
  max_entries = 1;
  hits = 0;
  misses = 0;
}

abbrev calls : List (Call String)
calls = sets "a" "one" 5 ∷ gets "k" 6 ∷ sets "b" "two" 7 ∷ []

run_bounded_example : length (run full calls).entries ≤ full.max_entries
run_bounded_example = run_bounded full calls (omega arith) (omega arith)

set_then_get_example :
    (c' : Cache String) × (set full "a" "one" 5 ≡ some c')
    × ((get c' "a" 100).0 ≡ (if ltb (5 + full.ttl) 100 then none else some "one"))
set_then_get_example = set_then_get full "a" "one" 5 100 (omega arith) (omega arith)
