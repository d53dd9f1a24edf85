-- ===== src/Chain/Faults.antt =====
-- What the walk of `try_chain` (src/api/request_pipeline.py) does to the health entries of
-- src/api/circuit_breaker.py.
use simple_lcp.Prelude.{
  ℕ, ◌+◌, String, ◌≡◌, ◌≢◌, ◌∙◌, refl, inl, inr, Bool, true, false, not, ◌&&◌, Option, some, List,
  [], ◌∷◌, ◌==◌, arith, ltb, length, All, Bool-cases, if◌then◌else◌,
}
use simple_lcp.Breaker.Health.{Key, key_eq, Health, Now, is_degraded}
use simple_lcp.Breaker.Table.{HealthTable}
use simple_lcp.Breaker.Entries.{healed, failed}
use simple_lcp.Breaker.Ops.{Breaker, peek, status_of}
use simple_lcp.Breaker.Effects.{
  entry, health-record_failover, entry-record_success, entry-record_failure,
}
use simple_lcp.Breaker.Reads.{check_makes_no_entry}
use simple_lcp.Pipeline.Errors.{ErrorKind, bad_request, config, class_name}
use simple_lcp.Chain.Forward.{Step, Config, Outcome, returned, raised, escaped, Upstream}
use simple_lcp.Chain.Prepare.{key_of, needs_vision}
use simple_lcp.Chain.Walk.{
  Result, Verdict, stop, go_on, State, settle, fail_over, blame, visit, gate, attempt, walk,
  walk_chain, chosen, has_healthy_alternative,
}

module _ (T : HealthTable) (U : Upstream) (cfg : Config) (profile : String)
    (session : Option String) where
  abbrev S : Type 0
  S = State T U cfg profile session

  entry-fail_over :
      (n i : ℕ) (step : Step) (rest : List Step) (kind : ErrorKind) (m : String) (s : S) (k : Key)
      → entry T (fail_over T U cfg profile session n i step rest kind m s).1.breaker k
        ≡ entry T s.breaker k
  unfolding fail_over
  entry-fail_over n i step [] kind m s k = elim (Bool-cases (ltb (i + 1) n)) [
    | inl e ↦ rw e refl
    | inr e ↦ rw e refl
  ]
  entry-fail_over n i step (next ∷ more) kind m s k = elim (Bool-cases (ltb (i + 1) n)) [
    | inl e ↦ rw (e, health-record_failover T s.breaker _) refl
    | inr e ↦ rw e refl
  ]

  -- What an outcome makes of the entry of the provider that gave it.
  unfoldable pub judged : Breaker T → Key → Now → Outcome U.Response → Option Health
  judged b k now (returned r status) = some (healed (peek T b k) now.iso)
  judged b k now (raised bad_request m) = entry T b k
  judged b k now (raised config m) = entry T b k
  judged b k now (raised kind m) =
      some (failed b.config (peek T b k) (some (class_name kind)) (some m) now)
  judged b k now escaped = entry T b k

  entry-blame :
      (step : Step) (kind : ErrorKind) (m : String) (s : S) (k : Key)
      → entry T (blame T U cfg profile session step kind m s).breaker k ≡ (
          if key_of cfg profile step == k
          then some (
              failed s.breaker.config
                (peek T s.breaker (key_of cfg profile step))
                (some (class_name kind))
                (some m)
                (U.now s.world))
          else entry T s.breaker k)
  unfolding blame
  entry-blame step kind m s k =
      entry-record_failure T s.breaker (key_of cfg profile step) k (some (class_name kind)) (some m)
        (U.now s.world)

  same_either_way :
      (b : Bool) (k j : Key) (s : Breaker T)
      → (b ≡ (k == j))
      → entry T s j ≡ (if b then entry T s k else entry T s j)
  same_either_way b k j s e = ground (arith, key_eq.beq_iff k j)

  -- After the call of a step, the entry of the step's own key is the one its outcome stands for,
  -- and every other entry is as it was: a success heals, an error of the provider counts as a
  -- failure, and an error of the request or of the configuration is held against no one.
  pub outcome_judges_own_key :
      (n i : ℕ) (step : Step) (rest : List Step) (o : Outcome U.Response) (s : S) (k : Key)
      → entry T (settle T U cfg profile session n i step rest o s).1.breaker k ≡ (
          if key_of cfg profile step == k
          then judged s.breaker (key_of cfg profile step) (U.now s.world) o
          else entry T s.breaker k)
  unfolding settle judged
  outcome_judges_own_key n i step rest (returned r status) s k =
      entry-record_success T s.breaker (key_of cfg profile step) k (U.now s.world)
  outcome_judges_own_key n i step rest (raised bad_request m) s k =
      same_either_way _ (key_of cfg profile step) k s.breaker refl
  outcome_judges_own_key n i step rest escaped s k =
      same_either_way _ (key_of cfg profile step) k s.breaker refl
  outcome_judges_own_key n i step rest (raised config m) s k =
      entry-fail_over n i step rest config m _ k
      ∙ same_either_way _ (key_of cfg profile step) k s.breaker refl
  outcome_judges_own_key n i step rest (raised kind m) s k =
      entry-fail_over n i step rest kind m _ k ∙ entry-blame step kind m s k

  entry-attempt :
      (n i : ℕ) (step : Step) (rest : List Step) (s : S) (k : Key)
      → k ≢ key_of cfg profile step
      → entry T (attempt T U cfg profile session n i step rest s).1.breaker k ≡ entry T s.breaker k
  unfolding attempt
  entry-attempt n i step rest s k h =
      outcome_judges_own_key n i step rest _ _ k
      ∙ ground (arith, key_eq.beq_iff (key_of cfg profile step) k)

  entry-gate :
      (n i : ℕ) (step : Step) (rest : List Step) (c : Bool × Breaker T) (s : S) (k : Key)
      → k ≢ key_of cfg profile step
      → entry T (gate T U cfg profile session n i step rest c s).1.breaker k ≡ entry T c.1 k
  unfolding gate
  entry-gate n i step rest (false, b) s k h = refl
  entry-gate n i step rest (true, b) s k h =
      elim (Bool-cases (
        is_degraded (status_of T b (key_of cfg profile step))
        && has_healthy_alternative T U cfg profile session b rest)) [
          | inl e ↦ rw e refl
          | inr e ↦ rw e (entry-attempt n i step rest (record s { breaker = b }) k h)
        ]

  entry-visit :
      (n i : ℕ) (step : Step) (rest : List Step) (s : S) (k : Key)
      → k ≢ key_of cfg profile step
      → entry T (visit T U cfg profile session n i step rest s).1.breaker k ≡ entry T s.breaker k
  unfolding visit
  entry-visit n i step rest s k h =
      elim (Bool-cases (needs_vision s.body && not (cfg.supports_vision step.model))) [
        | inl e ↦ rw e refl
        | inr e ↦ rw e (
            entry-gate n i step rest _ s k h
            ∙ check_makes_no_entry T s.breaker (key_of cfg profile step) k (U.now s.world) (inr h))
      ]

  abbrev pub IsOther : Key → Step → Type 0
  IsOther k step = k ≢ key_of cfg profile step

  turn-entry :
      (v : Verdict U.Response) (t : S) (onward : Result U.Response × S) (k : Key)
      → entry T onward.1.breaker k ≡ entry T t.breaker k
      → let o : Result U.Response × S = elim v [ stop r ↦ (r, t) | go_on ↦ onward ] in
        entry T o.1.breaker k ≡ entry T t.breaker k
  turn-entry (stop r) t onward k e = refl
  turn-entry go_on t onward k e = e

  entry-walk :
      (n i : ℕ) (chain : List Step) (s : S) (k : Key)
      → All (IsOther k) chain
      → entry T (walk T U cfg profile session n i chain s).1.breaker k ≡ entry T s.breaker k
  unfolding walk
  entry-walk n i [] s k h = refl
  entry-walk n i (step ∷ rest) s k h =
      let (v, t) = visit T U cfg profile session n i step rest s in
      turn-entry v t (walk T U cfg profile session n (i + 1) rest t) k
        (entry-walk n (i + 1) rest t k h.1)
      ∙ entry-visit n i step rest s k h.0

  -- The walk leaves the entry of every key that is the key of none of the steps it walks as it was.
  pub bystanders_unharmed :
      (chain : List Step) (reordered : Option (List Step)) (s : S) (k : Key)
      → All (IsOther k) (chosen T U cfg profile session chain reordered)
      → entry T (walk_chain T U cfg profile session chain reordered s).1.breaker k
        ≡ entry T s.breaker k
  unfolding walk_chain
  bystanders_unharmed chain reordered s k h =
      entry-walk (length chain) 0 (chosen T U cfg profile session chain reordered) s k h
