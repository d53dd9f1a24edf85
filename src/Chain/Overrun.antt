-- ===== src/Chain/Overrun.antt =====
-- The read of the next provider in the failover log of `try_chain` (src/api/request_pipeline.py):
-- the guard is the length of the profile's chain, the read is in the chain that is walked.
use simple_lcp.Prelude.{
  ℕ, suc, ◌+◌, ◌≤◌, ◌<◌, String, ◌≡◌, ◌≢◌, ap, ◌∙◌, refl, inl, inr, Bool, true, false, not, ◌&&◌,
  Option, some, List, [], ◌∷◌, arith, ltb, ltb→lt, lt→ltb, any, length, Bool-cases,
}
use simple_lcp.Breaker.Health.{is_degraded}
use simple_lcp.Breaker.Table.{HealthTable}
use simple_lcp.Breaker.Ops.{Breaker, is_available, status_of}
use simple_lcp.Pipeline.Errors.{ErrorKind, bad_request, config}
use simple_lcp.Chain.Forward.{Step, Config, Outcome, returned, raised, escaped, Upstream}
use simple_lcp.Chain.Prepare.{prepare, key_of, needs_vision}
use simple_lcp.Chain.Walk.{
  Result, index_error, Verdict, stop, go_on, State, settle, fail_over, visit, gate, attempt, walk,
  send, walk_chain, chosen, has_healthy_alternative,
}

module _ (T : HealthTable) (U : Upstream) (cfg : Config) (profile : String)
    (session : Option String) where
  abbrev S : Type 0
  S = State T U cfg profile session

  fail_over_inside :
      (n i : ℕ) (step : Step) (rest : List Step) (kind : ErrorKind) (m : String) (s : S)
      → n ≤ i + suc (length rest)
      → (fail_over T U cfg profile session n i step rest kind m s).0 ≢ stop index_error
  unfolding fail_over
  fail_over_inside n i step [] kind m s h = elim (Bool-cases (ltb (i + 1) n)) [
    | inl e ↦ absurd (omega (arith, ltb→lt _ _ e))
    | inr e ↦ rw e (λ p. cc)
  ]
  fail_over_inside n i step (next ∷ more) kind m s h = elim (Bool-cases (ltb (i + 1) n)) [
    | inl e ↦ rw e (λ p. cc)
    | inr e ↦ rw e (λ p. cc)
  ]

  settle_inside :
      (n i : ℕ) (step : Step) (rest : List Step) (o : Outcome U.Response) (s : S)
      → n ≤ i + suc (length rest)
      → (settle T U cfg profile session n i step rest o s).0 ≢ stop index_error
  unfolding settle
  settle_inside n i step rest (returned r status) s h = λ p. cc
  settle_inside n i step rest (raised bad_request m) s h = λ p. cc
  settle_inside n i step rest escaped s h = λ p. cc
  settle_inside n i step rest (raised kind m) s h = fail_over_inside n i step rest kind m _ h

  attempt_inside :
      (n i : ℕ) (step : Step) (rest : List Step) (s : S)
      → n ≤ i + suc (length rest)
      → (attempt T U cfg profile session n i step rest s).0 ≢ stop index_error
  unfolding attempt
  attempt_inside n i step rest s h = settle_inside n i step rest _ _ h

  gate_inside :
      (n i : ℕ) (step : Step) (rest : List Step) (c : Bool × Breaker T) (s : S)
      → n ≤ i + suc (length rest)
      → (gate T U cfg profile session n i step rest c s).0 ≢ stop index_error
  unfolding gate
  gate_inside n i step rest (false, b) s h = λ p. cc
  gate_inside n i step rest (true, b) s h =
      elim (Bool-cases (
        is_degraded (status_of T b (key_of cfg profile step))
        && has_healthy_alternative T U cfg profile session b rest)) [
          | inl e ↦ rw e (λ p. cc)
          | inr e ↦ rw e (attempt_inside n i step rest (record s { breaker = b }) h)
        ]

  visit_inside :
      (n i : ℕ) (step : Step) (rest : List Step) (s : S)
      → n ≤ i + suc (length rest)
      → (visit T U cfg profile session n i step rest s).0 ≢ stop index_error
  unfolding visit
  visit_inside n i step rest s h =
      elim (Bool-cases (needs_vision s.body && not (cfg.supports_vision step.model))) [
        | inl e ↦ rw e (λ p. cc)
        | inr e ↦ rw e (gate_inside n i step rest _ s h)
      ]

  turn_inside :
      (v : Verdict U.Response) (t : S) (onward : Result U.Response × S)
      → v ≢ stop index_error
      → onward.0 ≢ index_error
      → let o : Result U.Response × S = elim v [ stop r ↦ (r, t) | go_on ↦ onward ] in
        o.0 ≢ index_error
  turn_inside (stop r) t onward e a = λ p. e (ap (λ r'. stop r') p)
  turn_inside go_on t onward e a = a

  walk_inside :
      (n i : ℕ) (chain : List Step) (s : S)
      → n ≤ i + length chain
      → (walk T U cfg profile session n i chain s).0 ≢ index_error
  unfolding walk
  walk_inside n i [] s h = λ p. cc
  walk_inside n i (step ∷ rest) s h =
      let (v, t) = visit T U cfg profile session n i step rest s in
      turn_inside v t (walk T U cfg profile session n (i + 1) rest t)
        (visit_inside n i step rest s h) (walk_inside n (i + 1) rest t (omega arith))

  -- If the chain that is walked is at least as long as the profile's own, the walk never reads a
  -- step past its end.
  pub long_chain_is_safe :
      (chain : List Step) (reordered : Option (List Step)) (s : S)
      → length chain ≤ length (chosen T U cfg profile session chain reordered)
      → (walk_chain T U cfg profile session chain reordered s).0 ≢ index_error
  unfolding walk_chain
  long_chain_is_safe chain reordered s h =
      walk_inside (length chain) 0 (chosen T U cfg profile session chain reordered) s (omega arith)

  fail_over_outside :
      (n i : ℕ) (step : Step) (kind : ErrorKind) (m : String) (s : S)
      → i + 1 < n
      → (fail_over T U cfg profile session n i step [] kind m s).0 ≡ stop index_error
  unfolding fail_over
  fail_over_outside n i step kind m s h = rw (lt→ltb _ _ h) refl

  -- A failure, other than a refused request, of the last step of a chain that is shorter than the
  -- profile's own.
  settle_outside :
      (n i : ℕ) (step : Step) (kind : ErrorKind) (m : String) (s : S)
      → i + 1 < n
      → kind ≢ bad_request
      → (settle T U cfg profile session n i step [] (raised kind m) s).0 ≡ stop index_error
  unfolding settle
  settle_outside n i step bad_request m s h k = absurd (k refl)
  settle_outside n i step config m s h k = fail_over_outside n i step config m _ h
  settle_outside n i step kind m s h k = fail_over_outside n i step kind m _ h

  stop_at_once :
      (v : Verdict U.Response) (t : S) (onward : Result U.Response × S)
      → v ≡ stop index_error
      → let o : Result U.Response × S = elim v [ stop r ↦ (r, t) | go_on ↦ onward ] in
        o.0 ≡ index_error
  stop_at_once (stop r) t onward e = ground arith
  stop_at_once go_on t onward e = cc

  -- What a turn on a lone step does once its checks have passed.
  lone_turn :
      (n : ℕ) (step : Step) (s : S) (b : Breaker T)
      → (needs_vision s.body && not (cfg.supports_vision step.model)) ≡ false
      → is_available T s.breaker (key_of cfg profile step) (U.now s.world) ≡ (true, b)
      → visit T U cfg profile session n 0 step [] s
        ≡ attempt T U cfg profile session n 0 step [] (record s { breaker = b })
  unfolding visit gate has_healthy_alternative any
  lone_turn n step s b see free =
      rw (see, free)
        (elim (Bool-cases (is_degraded (status_of T b (key_of cfg profile step)))) [
          | inl e ↦ rw e refl
          | inr e ↦ rw e refl
        ])

  lone_attempt :
      (n : ℕ) (step : Step) (s : S) (kind : ErrorKind) (m : String)
      → 1 < n
      → (send T U cfg profile session step
          (prepare cfg step s.body (U.now s.world).time s.store).0
          s.world).0
        ≡ raised kind m
      → kind ≢ bad_request
      → (attempt T U cfg profile session n 0 step [] s).0 ≡ stop index_error
  unfolding attempt
  lone_attempt n step s kind m h fails k = rw fails (settle_outside n 0 step kind m _ h k)

  -- If the router picks one step for a profile of two or more, the step's model can take the
  -- request, its breaker lets it through, and the call fails for a reason other than a refused
  -- request, then the walk reads past the end of its chain and the index error escapes.
  pub single_pick_overruns :
      (chain : List Step) (step : Step) (s : S) (b : Breaker T) (kind : ErrorKind) (m : String)
      → 2 ≤ length chain
      → (needs_vision s.body && not (cfg.supports_vision step.model)) ≡ false
      → is_available T s.breaker (key_of cfg profile step) (U.now s.world) ≡ (true, b)
      → (send T U cfg profile session step
          (prepare cfg step s.body (U.now s.world).time s.store).0
          s.world).0
        ≡ raised kind m
      → kind ≢ bad_request
      → (walk_chain T U cfg profile session chain (some (step ∷ [])) s).0 ≡ index_error
  unfolding walk_chain walk attempt
  single_pick_overruns chain step s b kind m h see free fails k =
      let (v, t) = visit T U cfg profile session (length chain) 0 step [] s in
      stop_at_once v t (walk T U cfg profile session (length chain) 1 [] t) (
        ap (λ (o : Verdict U.Response × S). o.0) (lone_turn (length chain) step s b see free)
        ∙ lone_attempt (length chain) step (record s { breaker = b }) kind m (omega arith) fails k)
