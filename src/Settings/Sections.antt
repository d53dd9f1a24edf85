-- ===== src/Settings/Sections.antt =====
-- The rest of `SettingsStore` in src/api/cost_cache.py: the overrides of the refresh time, and the sections
-- of the configuration. The JSON values that are objects or arrays, and their codec, are parameters.
use simple_lcp.Prelude.{
  String, ◌≡◌, refl, ◌∙◌, Bool, Option, none, some, List, [], ◌∷◌, ◌==◌, string_eq, if◌then◌else◌,
  ℕ,
}
use simple_lcp.Router.Scores.{Floats}
use simple_lcp.Intent.Chars.{is_nil}
use simple_lcp.Intent.Said.{after}
use simple_lcp.Settings.Table.{SettingsTable}
use simple_lcp.Settings.Store.{SettingsStore, ensure_loaded, get, set, deleted_row, dropped}
use simple_lcp.Settings.Routing.{Codec, suffixed, ttl_from_raw}
use simple_lcp.Settings.Coherent.{get-set}

pub record Json : Type 1 where
  pub J : Type 0
  -- the value, or none for a text that is no JSON, or neither an object nor an array
  pub loads : String → Option J
  pub dumps : J → String
  pub is_empty : J → Bool
  pub empty_object : J

-- what the keys hold behind the prefix, where there is something behind it
unfoldable behind : String → List (String × String) → List (String × String)
behind p [] = []
behind p ((k, raw) ∷ rows) =
    let rest = behind p rows in
    elim (after p k) [ none ↦ rest | some name ↦ if is_nil name then rest else (name, raw) ∷ rest ]

self_test : (k v : String) (o : Option String) → (if k == k then some v else o) ≡ some v
self_test k v o = rw ((string_eq.beq_iff k k).1 refl) refl

module _ (T : SettingsTable) where
  abbrev gone : SettingsStore T → String → Option T.Db → Option (SettingsStore T)
  gone s key none = none
  gone s key (some db) = some (dropped T s key (some db))

  -- what its session raises is `none`
  unfoldable clear_ttl_minutes : SettingsStore T → String → Option (SettingsStore T)
  clear_ttl_minutes s provider =
      let key = suffixed "cost_cache_ttl_minutes" provider in
      gone s key (deleted_row T key s.engine)

  module _ (N : Floats) (C : Codec N) where
    minutes : List (String × String) → List (String × ℕ)
    minutes [] = []
    minutes ((provider, raw) ∷ rows) = (provider, ttl_from_raw T N C 30 raw) ∷ minutes rows

    unfoldable ttl_overrides : SettingsStore T → List (String × ℕ)
    unfolding minutes
    ttl_overrides s = minutes (behind "cost_cache_ttl_minutes:" (ensure_loaded T s).cache)

  module _ (X : Json) where
    abbrev section_key : String → String
    section_key section = suffixed "gateway_config" section

    abbrev parsed : X.J → Option X.J → X.J
    parsed default none = default
    parsed default (some v) = v

    abbrev read_or : X.J → Option String → X.J
    read_or default none = default
    read_or default (some raw) = parsed default (X.loads raw)

    unfoldable get_config_section : SettingsStore T → String → X.J → X.J
    get_config_section s section default = read_or default (get T s (section_key section))

    -- value or {}
    unfoldable or_object : X.J → X.J
    or_object v = if X.is_empty v then X.empty_object else v

    unfoldable set_config_section : SettingsStore T → String → X.J → Option (SettingsStore T)
    set_config_section s section v = set T s (section_key section) (X.dumps (or_object v))

    names : List (String × String) → List String
    names [] = []
    names ((name, raw) ∷ rows) = name ∷ names rows

    unfoldable config_sections : SettingsStore T → List String
    unfolding names
    config_sections s = names (behind "gateway_config:" (ensure_loaded T s).cache)

    -- If the codec gives a value back: a section that is set is read as it was set, but an empty value is
    -- read as the empty object, whatever it was.
    section_set_then_get :
        (s s' : SettingsStore T) (section : String) (v default : X.J)
        → X.loads (X.dumps (or_object v)) ≡ some (or_object v)
        → set_config_section s section v ≡ some s'
        → get_config_section s' section default ≡ or_object v
    unfolding set_config_section get_config_section
    section_set_then_get s s' section v default codec h =
        let key = section_key section in
        let read =
          get-set T s s' key (X.dumps (or_object v)) h key
          ∙ self_test key (X.dumps (or_object v)) _ in
        rw (read, codec) refl
