-- ===== src/Chain/Accounts.antt =====
-- What the whole walk of `try_chain` (src/api/request_pipeline.py) accounts for.
use simple_lcp.Prelude.{
  ℕ, suc, ◌+◌, String, ◌≡◌, ap, refl, sym, Option, List, [], ◌∷◌, ◌++◌, arith, length,
}
use simple_lcp.Breaker.Table.{HealthTable}
use simple_lcp.Chain.Forward.{Step, Config, Upstream}
use simple_lcp.Chain.Walk.{
  Result, served, rejected, all_failed, index_error, crashed, Verdict, stop, go_on, State, visit,
  walk, failure, walk_chain, chosen,
}
use simple_lcp.Chain.Steps.{Ends, visit-Ends}

-- The step of the chain that served the request, and the ones passed before it.
pub record ServedBy (chain : List Step) (provider model : String) (passed : ℕ) : Type 0 where
  pub before : List Step
  pub step : Step
  pub after : List Step
  pub splits : chain ≡ before ++ step ∷ after
  pub same_provider : step.provider ≡ provider
  pub same_model : step.model ≡ model
  pub passed_before : length before ≡ passed

module _ (T : HealthTable) (U : Upstream) (cfg : Config) (profile : String)
    (session : Option String) where
  abbrev S : Type 0
  S = State T U cfg profile session

  -- What a result says of the errors collected on the way.
  abbrev pub Accounts : List Step → S → Result U.Response → S → Type 0
  Accounts chain s (served r status p m) s' =
      (n : ℕ) × (length s'.errors ≡ length s.errors + n) × ServedBy chain p m n
  Accounts chain s (all_failed e) s' =
      (length s'.errors ≡ length s.errors + length chain) × (e ≡ failure profile s'.errors)
  Accounts chain s _ s' = Unit {0}

  Accounts-cons :
      (step : Step) (rest : List Step) (s t : S) (r : Result U.Response) (s' : S)
      → length t.errors ≡ suc (length s.errors)
      → Accounts rest t r s'
      → Accounts (step ∷ rest) s r s'
  Accounts-cons step rest s t (served r status p m) s' e (n, f, by) = (
    suc n,
    omega arith,
    record {
      before = step ∷ by.before;
      step = by.step;
      after = by.after;
      splits = ap (λ c. step ∷ c) by.splits;
      same_provider = by.same_provider;
      same_model = by.same_model;
      passed_before = ap suc by.passed_before;
    },
  )
  Accounts-cons step rest s t (all_failed m) s' e (f, g) = (omega arith, g)
  Accounts-cons step rest s t (rejected m) s' e a = tt
  Accounts-cons step rest s t index_error s' e a = tt
  Accounts-cons step rest s t crashed s' e a = tt

  stopped-Accounts :
      (step : Step) (rest : List Step) (s : S) (r : Result U.Response) (s' : S)
      → Ends T U cfg profile session step s (stop r) s'
      → Accounts (step ∷ rest) s r s'
  stopped-Accounts step rest s (served r status p m) s' (same_p, same_m, same_e) = (
    0,
    omega (arith, ap (λ (es : List String). length es) same_e),
    record {
      before = [];
      step = step;
      after = rest;
      splits = refl;
      same_provider = sym same_p;
      same_model = sym same_m;
      passed_before = refl;
    },
  )
  stopped-Accounts step rest s (all_failed m) s' a = absurd a
  stopped-Accounts step rest s (rejected m) s' a = tt
  stopped-Accounts step rest s index_error s' a = tt
  stopped-Accounts step rest s crashed s' a = tt

  -- One turn, then the rest of the walk.
  turn-Accounts :
      (step : Step) (rest : List Step) (s : S) (v : Verdict U.Response) (t : S)
      (onward : Result U.Response × S)
      → Ends T U cfg profile session step s v t
      → Accounts rest t onward.0 onward.1
      → let o : Result U.Response × S = elim v [ stop r ↦ (r, t) | go_on ↦ onward ] in
        Accounts (step ∷ rest) s o.0 o.1
  turn-Accounts step rest s (stop r) t onward e a = stopped-Accounts step rest s r t e
  turn-Accounts step rest s go_on t onward e a = Accounts-cons step rest s t onward.0 onward.1 e a

  walk-Accounts :
      (chain_len i : ℕ) (chain : List Step) (s : S)
      → let (r, s') = walk T U cfg profile session chain_len i chain s in Accounts chain s r s'
  unfolding walk
  walk-Accounts chain_len i [] s = (omega arith, refl)
  walk-Accounts chain_len i (step ∷ rest) s =
      let (v, t) = visit T U cfg profile session chain_len i step rest s in
      turn-Accounts step rest s v t (walk T U cfg profile session chain_len (i + 1) rest t)
        (visit-Ends T U cfg profile session chain_len i step rest s)
        (walk-Accounts chain_len (i + 1) rest t)

  -- The walk accounts for every step: a served request was served by a step of the chain, under its
  -- own provider and model, with one error for each step before it; and if all failed there is one
  -- error for each step of the chain, and the message joins them.
  pub walk_chain-Accounts :
      (chain : List Step) (reordered : Option (List Step)) (s : S)
      → let (r, s') = walk_chain T U cfg profile session chain reordered s in
        Accounts (chosen T U cfg profile session chain reordered) s r s'
  unfolding walk_chain
  walk_chain-Accounts chain reordered s =
      walk-Accounts (length chain) 0 (chosen T U cfg profile session chain reordered) s
