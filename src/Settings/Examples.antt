-- ===== src/Settings/Examples.antt =====
-- Runs of the settings store of src/api/cost_cache.py over a table of two rows.
use simple_lcp.Prelude.{
  String, ◌≡◌, refl, true, none, some, List, [], ◌∷◌, string_eq, lookup, insert, contains, arith,
  Unique,
}
use simple_lcp.Router.Request.{Dynamic, or_else}
use simple_lcp.Router.Sample.{hundredths}
use simple_lcp.Settings.Table.{Rows, dict_settings, dict-Lawful}
use simple_lcp.Settings.Store.{SettingsStore, new_store, get, set}
use simple_lcp.Settings.Routing.{Codec, profile_key, set_routing_policy}
use simple_lcp.Settings.Coherent.{
  sets, clears, run, settings_survive_restart, early_write_hides_rows,
}
use simple_lcp.Settings.Scoped.{policy_for, stored_policy_is_scoped}

abbrev held : List (String × String)
held = ("routing_policy", "explore") ∷ ("routing_enabled", "1") ∷ []

held-Unique : Unique held
unfolding lookup
held-Unique = (refl, (refl, tt))

abbrev table : Rows
table = record { rows = held; unique = held-Unique }

abbrev read_store : SettingsStore dict_settings
read_store = record { engine = some table; cache = held; loaded = true }

abbrev codec : Codec hundredths
codec = record {
  float = λ s. none;
  show_float = λ n. "0";
  int = λ s. none;
  show_int = λ n. "1";
  loads = λ s. none;
  dumps = λ rs. "[]";
}

settings_survive_restart_example :
    let s' = run dict_settings read_store (sets "a" "1" ∷ clears "routing_policy" ∷ []) in
    (db : Rows) × (s'.engine ≡ some db)
    × ((j : String)
        → get dict_settings (new_store dict_settings (some db)) j ≡ get dict_settings s' j)
settings_survive_restart_example =
    settings_survive_restart dict_settings dict-Lawful read_store
      (sets "a" "1" ∷ clears "routing_policy" ∷ []) (table, held, refl, refl, refl, λ j. refl)

abbrev after_early_write : SettingsStore dict_settings
after_early_write = record {
  engine = dict_settings.put "a" "1" table;
  cache = ("a", "1") ∷ [];
  loaded = true;
}

early_write :
    set dict_settings (new_store dict_settings (some table)) "a" "1" ≡ some after_early_write
unfolding set new_store insert
early_write = refl

early_write_hides_rows_example :
    (rows' : List (String × String)) × (db' : Rows) × (after_early_write.engine ≡ some db')
    × (some db'.rows ≡ some rows')
    × (lookup "routing_enabled" rows' ≡ lookup "routing_enabled" held)
    × (get dict_settings after_early_write "routing_enabled" ≡ none)
early_write_hides_rows_example =
    early_write_hides_rows dict_settings dict-Lawful table held "a" "1" "routing_enabled"
      after_early_write refl early_write
      (λ e. ground (arith, string_eq.beq_iff "a" "routing_enabled"))

abbrev settled : Dynamic hundredths
settled = record { policy = none; min_score = none; rules = [] }

abbrev l2_set : SettingsStore dict_settings
l2_set = record {
  engine = dict_settings.put (profile_key "routing_policy" "l2") "cost_first" table;
  cache = insert (profile_key "routing_policy" "l2") "cost_first" held;
  loaded = true;
}

l2_write : set_routing_policy dict_settings read_store "cost_first" "l2" ≡ some l2_set
unfolding set_routing_policy set contains
l2_write = refl

stored_policy_is_scoped_example :
    (policy_for dict_settings hundredths codec settled [] 0 l2_set "l2"
      ≡ or_else hundredths settled.policy "cost_first")
    × (policy_for dict_settings hundredths codec settled [] 0 l2_set "l1"
        ≡ policy_for dict_settings hundredths codec settled [] 0 read_store "l1")
stored_policy_is_scoped_example =
    stored_policy_is_scoped dict_settings hundredths codec settled [] 0 read_store l2_set
      "cost_first" "l2" "l1" refl (λ e. ground (arith, string_eq.beq_iff "l2" ""))
      (λ e. ground (arith, string_eq.beq_iff "l2" "l1")) l2_write
