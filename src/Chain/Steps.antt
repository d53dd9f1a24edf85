-- ===== src/Chain/Steps.antt =====
-- One turn of the loop of `try_chain` (src/api/request_pipeline.py): how it can end.
use simple_lcp.Prelude.{
  ℕ, suc, ◌+◌, String, ◌≡◌, refl, inl, inr, Bool, true, false, not, ◌&&◌, Option, List, [], ◌∷◌,
  ◌++◌, arith, ltb, length, length-append, Bool-cases,
}
use simple_lcp.Breaker.Table.{HealthTable}
use simple_lcp.Breaker.Health.{is_degraded}
use simple_lcp.Breaker.Ops.{Breaker, status_of}
use simple_lcp.Pipeline.Errors.{ErrorKind, bad_request}
use simple_lcp.Chain.Forward.{Step, Config, Outcome, returned, raised, escaped, Upstream}
use simple_lcp.Chain.Prepare.{key_of, needs_vision}
use simple_lcp.Chain.Walk.{
  served, all_failed, Verdict, stop, go_on, State, settle, visit, fail_over, attempt, gate,
  has_healthy_alternative,
}

module _ (T : HealthTable) (U : Upstream) (cfg : Config) (profile : String)
    (session : Option String) where
  abbrev S : Type 0
  S = State T U cfg profile session

  -- How a turn ends: it goes on with one more error, or it serves the request from its own step, or
  -- it stops for another reason, which is never that all steps have failed.
  abbrev pub Ends : Step → S → Verdict U.Response → S → Type 0
  Ends step s go_on s' = length s'.errors ≡ suc (length s.errors)
  Ends step s (stop (served r status p m)) s' =
      (p ≡ step.provider) × (m ≡ step.model) × (s'.errors ≡ s.errors)
  Ends step s (stop (all_failed e)) s' = ⊥
  Ends step s (stop _) s' = Unit {0}

  length-snoc : (es : List String) (e : String) → length (es ++ e ∷ []) ≡ suc (length es)
  length-snoc es e = omega (arith, length-append es (e ∷ []))

  fail_over-Ends :
      (chain_len i : ℕ) (step : Step) (rest : List Step) (kind : ErrorKind) (m : String) (s s' : S)
      → length s'.errors ≡ suc (length s.errors)
      → let (v, s'') = fail_over T U cfg profile session chain_len i step rest kind m s' in
        Ends step s v s''
  unfolding fail_over
  fail_over-Ends chain_len i step [] kind m s s' e = elim (Bool-cases (ltb (i + 1) chain_len)) [
    | inl c ↦ rw c tt
    | inr c ↦ rw c e
  ]
  fail_over-Ends chain_len i step (next ∷ more) kind m s s' e =
      elim (Bool-cases (ltb (i + 1) chain_len)) [ inl c ↦ rw c e | inr c ↦ rw c e ]

  settle-Ends :
      (chain_len i : ℕ) (step : Step) (rest : List Step) (o : Outcome U.Response) (s : S)
      → let (v, s') = settle T U cfg profile session chain_len i step rest o s in Ends step s v s'
  unfolding settle
  settle-Ends chain_len i step rest (returned r status) s = (refl, refl, refl)
  settle-Ends chain_len i step rest (raised bad_request m) s = tt
  settle-Ends chain_len i step rest escaped s = tt
  settle-Ends chain_len i step rest (raised kind m) s =
      fail_over-Ends chain_len i step rest kind m s _ (length-snoc s.errors _)

  attempt-Ends :
      (chain_len i : ℕ) (step : Step) (rest : List Step) (s : S)
      → let (v, s') = attempt T U cfg profile session chain_len i step rest s in Ends step s v s'
  unfolding attempt
  attempt-Ends chain_len i step rest s = settle-Ends chain_len i step rest _ _

  gate-Ends :
      (chain_len i : ℕ) (step : Step) (rest : List Step) (c : Bool × Breaker T) (s : S)
      → let (v, s') = gate T U cfg profile session chain_len i step rest c s in Ends step s v s'
  unfolding gate
  gate-Ends chain_len i step rest (false, b) s = length-snoc s.errors _
  gate-Ends chain_len i step rest (true, b) s =
      elim (Bool-cases (
        is_degraded (status_of T b (key_of cfg profile step))
        && has_healthy_alternative T U cfg profile session b rest)) [
          | inl e ↦ rw e (length-snoc s.errors _)
          | inr e ↦ rw e (attempt-Ends chain_len i step rest (record s { breaker = b }))
        ]

  pub visit-Ends :
      (chain_len i : ℕ) (step : Step) (rest : List Step) (s : S)
      → let (v, s') = visit T U cfg profile session chain_len i step rest s in Ends step s v s'
  unfolding visit
  visit-Ends chain_len i step rest s =
      elim (Bool-cases (needs_vision s.body && not (cfg.supports_vision step.model))) [
        | inl e ↦ rw e (length-snoc s.errors _)
        | inr e ↦ rw e (gate-Ends chain_len i step rest _ s)
      ]
