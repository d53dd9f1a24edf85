-- ===== src/Settings/Scoped.antt =====
-- The scopes of the routing settings (src/api/cost_cache.py): a profile's own value, the global one
-- behind it, and what the router of src/api/router.py makes of them.
use simple_lcp.Prelude.{
  some-inj, String, ◌≡◌, ◌≢◌, refl, sym, ap, ◌∙◌, Bool, true, false, Option, none, some, List,
  string_eq, contains, if◌then◌else◌, arith,
}
use mathlib.Core.Path.{ap₂}
use simple_lcp.Router.Scores.{Floats}
use simple_lcp.Router.Request.{Dynamic, or_else, effective_policy}
use simple_lcp.Settings.Table.{SettingsTable}
use simple_lcp.Settings.Store.{SettingsStore, get, set}
use simple_lcp.Settings.Routing.{
  Codec, suffixed, profile_key, policies, raw_for, get_routing_policy, set_routing_policy, scope_of,
  first_of, valid_or,
}
use simple_lcp.Settings.Coherent.{get-set, get-loaded}

tail : String → String
tail String.[] = String.[]
tail (String.◌∷◌ c s) = s

starts : String → Bool
starts String.[] = false
starts (String.◌∷◌ c s) = true

suffixed_longer : (base p : String) → suffixed base p ≢ base
unfolding suffixed tail starts
suffixed_longer String.[] p e = ground (arith, ap starts e)
suffixed_longer (String.◌∷◌ c s) p e = suffixed_longer s p (ap tail e)

suffixed-inj : (base p q : String) → suffixed base p ≡ suffixed base q → p ≡ q
unfolding suffixed tail
suffixed-inj String.[] p q e = ap tail e
suffixed-inj (String.◌∷◌ c s) p q e = suffixed-inj s p q (ap tail e)

-- Scopes have keys of their own.
profile_key-inj : (base p q : String) → profile_key base p ≡ profile_key base q → p ≡ q
unfolding profile_key
profile_key-inj base p q e = ground (
  arith,
  string_eq.beq_iff p "",
  string_eq.beq_iff q "",
  suffixed-inj base p q,
  suffixed_longer base p,
  suffixed_longer base q,
)

module _ (T : SettingsTable) where
  chosen_write :
      (t : Bool) (o : Option (SettingsStore T)) (s' : SettingsStore T)
      → (if t then o else none) ≡ some s'
      → (t ≡ true) × (o ≡ some s')
  chosen_write true o s' h = (refl, h)
  chosen_write false o s' h = cc

  get-own : (s s' : SettingsStore T) (k v : String) → set T s k v ≡ some s' → get T s' k ≡ some v
  get-own s s' k v h = get-set T s s' k v h k ∙ ground (arith, string_eq.beq_iff k k)

  get-other :
      (s s' : SettingsStore T) (base v p q : String)
      → set T s (profile_key base p) v ≡ some s'
      → s.loaded ≡ true
      → p ≢ q
      → get T s' (profile_key base q) ≡ get T s (profile_key base q)
  get-other s s' base v p q h on other =
      get-set T s s' (profile_key base p) v h (profile_key base q)
      ∙ ground (
        arith,
        string_eq.beq_iff (profile_key base p) (profile_key base q),
        profile_key-inj base p q,
      )
      ∙ sym (get-loaded T s (profile_key base q) on)

  valid_choice :
      (default p : String) (o : Option String)
      → contains p policies ≡ true
      → o ≡ some p
      → valid_or T default o ≡ p
  valid_choice default p none ok e = cc
  valid_choice default p (some q) ok e = rw (some-inj e, ok) refl

  module _ (N : Floats) (C : Codec N) (dyn : Dynamic N) (is : List String) (gate : N.F) where
    -- what `_effective_policy` answers for a profile, before the policy rules
    abbrev pub policy_for : SettingsStore T → String → String
    policy_for s profile = (effective_policy N (scope_of T N C s profile dyn is gate)).0

    -- Once the store has read its table: when a policy is stored for a profile, the effective policy of
    -- that profile, which the routing starts from and a policy rule may then override, is the stored one,
    -- unless the configuration names one, which then wins; and the effective policy of another profile,
    -- or of none, stays as it was.
    pub stored_policy_is_scoped :
        (s s' : SettingsStore T) (p profile q : String)
        → s.loaded ≡ true
        → profile ≢ ""
        → profile ≢ q
        → set_routing_policy T s p profile ≡ some s'
        → (policy_for s' profile ≡ or_else N dyn.policy p) × (policy_for s' q ≡ policy_for s q)
    unfolding effective_policy scope_of get_routing_policy set_routing_policy raw_for profile_key
    stored_policy_is_scoped s s' p profile q on scoped other h =
        let (ok, w) = chosen_write (contains p policies) _ s' h in
        (
          ap (or_else N dyn.policy) (
              valid_choice "eager" p _ ok
                (rw (get-own s s' (profile_key "routing_policy" profile) p w) refl)),
          ap (or_else N dyn.policy) (
              ap₂ (λ a b. valid_or T "eager" (first_of a b))
                (get-other s s' "routing_policy" p profile q w on other)
                (get-other s s' "routing_policy" p profile "" w on scoped)),
        )
