-- ===== src/Settings/Routing.antt =====
-- The routing settings and the refresh times of `SettingsStore` in src/api/cost_cache.py, and the
-- scope that the router of src/api/router.py reads from them. `float(…)`, `int(float(…))`, the JSON
-- codec and the printing of numbers are parameters; `none` is a text that they reject.
use simple_lcp.Prelude.{
  ℕ, max, String, Bool, Option, none, some, List, [], ◌∷◌, ◌==◌, string_eq, contains, if◌then◌else◌,
}
use simple_lcp.Router.Names.{lower_text, strip}
use simple_lcp.Router.Scores.{Floats}
use simple_lcp.Router.Rules.{Rule}
use simple_lcp.Router.Request.{Dynamic, Scope}
use simple_lcp.Settings.Table.{SettingsTable}
use simple_lcp.Settings.Store.{SettingsStore, get, set, clear_key}

-- f"{base}:{scope}"
unfoldable pub suffixed : String → String → String
suffixed String.[] scope = String.◌∷◌ ":" scope
suffixed (String.◌∷◌ c s) scope = String.◌∷◌ c (suffixed s scope)

-- `_profile_key`, where no profile is the empty text
unfoldable pub profile_key : String → String → String
profile_key base profile = if profile == "" then base else suffixed base profile

abbrev pub policies : List String
policies = "eager" ∷ "cost_first" ∷ "explore" ∷ []

-- How the texts of the settings are read and written. `loads` answers a list, or `none` for a text that
-- is no list or no JSON: both end in the same way when no default is given.
pub record Codec (N : Floats) : Type 0 where
  pub float : String → Option N.F
  pub show_float : N.F → String
  pub int : String → Option ℕ
  pub show_int : ℕ → String
  pub loads : String → Option (List (Rule N))
  pub dumps : List (Rule N) → String

abbrev pub first_of : Option String → Option String → Option String
first_of none other = other
first_of (some raw) other = some raw

module _ (T : SettingsTable) where
  -- the raw text for a scope: the profile's own, else the global one
  unfoldable pub raw_for : SettingsStore T → String → String → Option String
  raw_for s base profile = first_of (get T s (profile_key base profile)) (get T s base)

  abbrev pub valid_or : String → Option String → String
  valid_or default none = default
  valid_or default (some raw) = if contains raw policies then raw else default

  unfoldable pub get_routing_policy : SettingsStore T → String → String → String
  get_routing_policy s default profile = valid_or default (raw_for s "routing_policy" profile)

  -- `none` is the ValueError, or what the session raises
  unfoldable pub set_routing_policy : SettingsStore T → String → String → Option (SettingsStore T)
  set_routing_policy s policy profile =
      if contains policy policies
      then set T s (profile_key "routing_policy" profile) policy
      else none

  unfoldable clear_routing_policy : SettingsStore T → String → SettingsStore T
  clear_routing_policy s profile = clear_key T s (profile_key "routing_policy" profile)

  -- str(raw).strip().lower() in ("1", "true", "yes", "on")
  unfoldable pub is_truthy : String → Bool
  is_truthy raw = contains (lower_text (strip raw)) ("1" ∷ "true" ∷ "yes" ∷ "on" ∷ [])

  unfoldable pub get_routing_enabled : SettingsStore T → String → Option Bool
  get_routing_enabled s profile = elim (raw_for s "routing_enabled" profile) [
    | none ↦ none
    | some raw ↦ some (is_truthy raw)
  ]

  unfoldable set_routing_enabled : SettingsStore T → Bool → String → Option (SettingsStore T)
  set_routing_enabled s enabled profile =
      set T s (profile_key "routing_enabled" profile) (if enabled then "1" else "0")

  unfoldable clear_routing_enabled : SettingsStore T → String → SettingsStore T
  clear_routing_enabled s profile = clear_key T s (profile_key "routing_enabled" profile)

  module _ (N : Floats) (C : Codec N) where
    abbrev float_or : N.F → Option N.F → N.F
    float_or default none = default
    float_or default (some x) = x

    abbrev parsed_or : N.F → Option String → N.F
    parsed_or default none = default
    parsed_or default (some raw) = float_or default (C.float raw)

    unfoldable pub get_routing_min_score : SettingsStore T → N.F → String → N.F
    get_routing_min_score s default profile =
        parsed_or default (raw_for s "routing_min_score" profile)

    unfoldable set_routing_min_score : SettingsStore T → N.F → String → Option (SettingsStore T)
    set_routing_min_score s value profile =
        set T s (profile_key "routing_min_score" profile) (C.show_float value)

    unfoldable clear_routing_min_score : SettingsStore T → String → SettingsStore T
    clear_routing_min_score s profile = clear_key T s (profile_key "routing_min_score" profile)

    abbrev rules_or_none : Option (List (Rule N)) → List (Rule N)
    rules_or_none none = []
    rules_or_none (some rs) = rs

    abbrev loaded_rules : Option String → List (Rule N)
    loaded_rules none = []
    loaded_rules (some raw) = rules_or_none (C.loads raw)

    unfoldable pub get_routing_rules : SettingsStore T → String → List (Rule N)
    get_routing_rules s profile = loaded_rules (raw_for s "routing_rules" profile)

    unfoldable set_routing_rules :
        SettingsStore T → List (Rule N) → String → Option (SettingsStore T)
    set_routing_rules s rules profile =
        set T s (profile_key "routing_rules" profile) (C.dumps rules)

    unfoldable clear_routing_rules : SettingsStore T → String → SettingsStore T
    clear_routing_rules s profile = clear_key T s (profile_key "routing_rules" profile)

    abbrev ttl_or : ℕ → Option ℕ → ℕ
    ttl_or default none = default
    ttl_or default (some n) = max 1 n

    -- _ttl_from_raw
    unfoldable pub ttl_from_raw : ℕ → String → ℕ
    ttl_from_raw default raw = ttl_or default (C.int raw)

    abbrev ttl_for : ℕ → Option String → ℕ
    ttl_for default none = max 1 default
    ttl_for default (some raw) = ttl_from_raw default raw

    unfoldable get_ttl_minutes : SettingsStore T → String → ℕ → ℕ
    get_ttl_minutes s provider default =
        ttl_for default (raw_for s "cost_cache_ttl_minutes" provider)

    unfoldable set_ttl_minutes : SettingsStore T → ℕ → String → Option (SettingsStore T)
    set_ttl_minutes s minutes provider =
        set T s (profile_key "cost_cache_ttl_minutes" provider) (C.show_int (max 1 minutes))

    -- What the router reads for a profile; the rest of the scope is what the configuration says.
    unfoldable pub scope_of : SettingsStore T → String → Dynamic N → List String → N.F → Scope N
    scope_of s profile dynamic_routing intents gate = record {
      stored_enabled = get_routing_enabled s profile;
      stored_policy = λ default. get_routing_policy s default profile;
      stored_min_score = λ default. get_routing_min_score s default profile;
      stored_rules = get_routing_rules s profile;
      dynamic_routing = dynamic_routing;
      intents = intents;
      intent_margin_gate = gate;
    }
