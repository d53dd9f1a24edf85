-- ===== src/Alerts/Cooldown.antt =====
-- The cooldown and the bounded history of src/api/alert_manager.py.
use simple_lcp.Prelude.{
  ℕ, suc, ◌+◌, ◌≤◌, ◌<◌, String, ◌≡◌, ◌≢◌, refl, sym, ap, ◌∙◌, subst, Option, none, some, List, [],
  ◌∷◌, ◌++◌, string_eq, arith, length, lookup, lookup-insert, All,
}
use simple_lcp.Alerts.Manager.{
  Settings, Alert, AlertTable, Event, Clock, Manager, cooling, fire, alert_of, last_entries, change,
  close_active, mark_active, resolve, acknowledge, Call, fires, resolves, acknowledges, step, run,
}

length-last_entries : {A : Type 0} (n : ℕ) (xs : List A) → length (last_entries n xs) ≤ n
unfolding last_entries
length-last_entries n [] = omega arith
length-last_entries n (x ∷ xs) = ground (arith, length-last_entries n xs)

module _ (T : AlertTable) (show : ℕ → String) where
  length-change :
      (n : ℕ) (f : Alert → Alert) (xs : List Alert) → length (change T show n f xs) ≡ length xs
  unfolding change
  length-change n f [] = refl
  length-change n f (a ∷ xs) = ap suc (length-change n f xs)

  abbrev time_of : Call T show → ℕ
  time_of (fires e now) = now.time
  time_of (resolves k now) = now.time
  time_of (acknowledges k now) = now.time

  -- The key fired at `t`, under a cooldown of `c`.
  abbrev FiredAt : String → ℕ → ℕ → Manager T show → Type 0
  FiredAt k t c m = (lookup k m.last_fire ≡ some t) × (m.settings.cooldown_seconds ≡ c)

  fire-FiredAt :
      (k : String) (t c : ℕ) (m : Manager T show) (e : Event) (now : Clock)
      → now.time < t + c
      → FiredAt k t c m
      → FiredAt k t c (fire T show m e now).1
  unfolding fire cooling
  fire-FiredAt k t c m e now h f =
      ground
        (arith, string_eq.beq_iff e.dedup_key k, lookup-insert e.dedup_key k now.time m.last_fire)

  abbrev or_zero : Option Alert → ℕ
  or_zero none = 0
  or_zero (some a) = a.serial

  resolve-keeps :
      (m : Manager T show) (k now : String)
      → ((resolve T show m k now).1.last_fire ≡ m.last_fire)
        × ((resolve T show m k now).1.settings ≡ m.settings)
        × (length (resolve T show m k now).1.history ≡ length m.history)
  unfolding resolve close_active
  resolve-keeps m k now = ground (
    arith,
    length-change (or_zero (lookup k m.active)) (λ x. record x { resolved_at = some now })
        m.history,
  )

  acknowledge-keeps :
      (m : Manager T show) (k now : String)
      → ((acknowledge T show m k now).1.last_fire ≡ m.last_fire)
        × ((acknowledge T show m k now).1.settings ≡ m.settings)
        × (length (acknowledge T show m k now).1.history ≡ length m.history)
  unfolding acknowledge mark_active
  acknowledge-keeps m k now = ground (
    arith,
    length-change (or_zero (lookup k m.active)) (λ x. record x { acknowledged_at = some now })
        m.history,
  )

  step-FiredAt :
      (k : String) (t c : ℕ) (m : Manager T show) (call : Call T show)
      → time_of call < t + c
      → FiredAt k t c m
      → FiredAt k t c (step T show m call)
  unfolding step
  step-FiredAt k t c m (fires e now) h f = fire-FiredAt k t c m e now h f
  step-FiredAt k t c m (resolves j now) h f =
      let (p, q, r) = resolve-keeps m j now.iso in
      (ap (lookup k) p ∙ f.0, ap (λ (s : Settings). s.cooldown_seconds) q ∙ f.1)
  step-FiredAt k t c m (acknowledges j now) h f =
      let (p, q, r) = acknowledge-keeps m j now.iso in
      (ap (lookup k) p ∙ f.0, ap (λ (s : Settings). s.cooldown_seconds) q ∙ f.1)

  run-FiredAt :
      (k : String) (t c : ℕ) (m : Manager T show) (calls : List (Call T show))
      → All (λ call. time_of call < t + c) calls
      → FiredAt k t c m
      → FiredAt k t c (run T show m calls)
  unfolding run
  run-FiredAt k t c m [] h f = f
  run-FiredAt k t c m (call ∷ calls) h f =
      run-FiredAt k t c (step T show m call) calls h.1 (step-FiredAt k t c m call h.0 f)

  fired-FiredAt :
      (m : Manager T show) (e : Event) (now : Clock) {a : Alert}
      → e.dedup_key ≢ ""
      → (fire T show m e now).0 ≡ some a
      → FiredAt e.dedup_key now.time m.settings.cooldown_seconds (fire T show m e now).1
  unfolding fire
  fired-FiredAt m e now n h = ground (
    arith,
    string_eq.beq_iff e.dedup_key "",
    string_eq.beq_iff e.dedup_key e.dedup_key,
    lookup-insert e.dedup_key e.dedup_key now.time m.last_fire,
  )

  cooling-none :
      (m : Manager T show) (e : Event) (t c : ℕ) (now : Clock)
      → e.dedup_key ≢ ""
      → FiredAt e.dedup_key t c m
      → now.time < t + c
      → fire T show m e now ≡ (none, m)
  unfolding fire cooling
  cooling-none m e t c now n f h = ground (arith, string_eq.beq_iff e.dedup_key "")

  -- Once an alert with a key has fired, no event with that key fires again, or changes anything,
  -- before the cooldown has passed, whatever is fired, resolved or acknowledged in between.
  pub no_repeat_within_cooldown :
      (m : Manager T show) (e : Event) (now : Clock) {a : Alert}
      → e.dedup_key ≢ ""
      → (fire T show m e now).0 ≡ some a
      → (calls : List (Call T show))
      → All (λ call. time_of call < now.time + m.settings.cooldown_seconds) calls
      → (again : Event) (later : Clock) → again.dedup_key ≡ e.dedup_key
      → later.time < now.time + m.settings.cooldown_seconds
      → let m' = run T show (fire T show m e now).1 calls in fire T show m' again later ≡ (none, m')
  no_repeat_within_cooldown m e now n h calls between again later same soon =
      let c = m.settings.cooldown_seconds in
      let m' = run T show (fire T show m e now).1 calls in
      let f : FiredAt e.dedup_key now.time c m' =
        run-FiredAt e.dedup_key now.time c (fire T show m e now).1 calls between
          (fired-FiredAt m e now n h) in
      cooling-none m' again now.time c later (λ p. n (sym same ∙ p))
        (subst (λ k. FiredAt k now.time c m') (sym same) f) soon

  fire-bounded :
      (m : Manager T show) (e : Event) (now : Clock)
      → length m.history ≤ 500
      → length (fire T show m e now).1.history ≤ 500
  unfolding fire
  fire-bounded m e now h =
      ground (arith, length-last_entries 500 (m.history ++ alert_of T show m e now ∷ []))

  step-bounded :
      (m : Manager T show) (call : Call T show)
      → length m.history ≤ 500
      → length (step T show m call).history ≤ 500
  unfolding step
  step-bounded m (fires e now) h = fire-bounded m e now h
  step-bounded m (resolves k now) h = omega (arith, (resolve-keeps m k now.iso).2)
  step-bounded m (acknowledges k now) h = omega (arith, (acknowledge-keeps m k now.iso).2)

  -- A history of at most 500 alerts never grows beyond 500, however many calls are made.
  history_bounded :
      (m : Manager T show) (calls : List (Call T show))
      → length m.history ≤ 500
      → length (run T show m calls).history ≤ 500
  unfolding run
  history_bounded m [] h = h
  history_bounded m (call ∷ calls) h =
      history_bounded (step T show m call) calls (step-bounded m call h)
