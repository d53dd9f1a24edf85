-- ===== src/Router/Served.antt =====
-- A routed request from end to end: `select_step` of src/api/router.py, and then the walk of
-- `try_chain` of src/api/request_pipeline.py down the chain that it answered.
use simple_lcp.Prelude.{
  ℕ, String, ◌≡◌, refl, sym, subst, inl, true, false, Option, some, List, ◌∷◌, IsIn,
  IsIn-append_right,
}
use simple_lcp.Breaker.Health.{Now}
use simple_lcp.Breaker.Table.{HealthTable}
use simple_lcp.Chain.Forward.{Step, Config, Upstream}
use simple_lcp.Chain.Walk.{served, State, walk_chain, chosen}
use simple_lcp.Chain.Accounts.{ServedBy, Accounts, walk_chain-Accounts}
use simple_lcp.Router.Names.{logical_model_name}
use simple_lcp.Router.Scores.{Floats, Facts}
use simple_lcp.Router.Request.{Detail, Scope, rules_of}
use simple_lcp.Router.Select.{RouterState, select_step}
use simple_lcp.Router.Blocks.{is_blocked}
use simple_lcp.Router.Free.{is_free}
use simple_lcp.Router.Routed.{narrow}
use simple_lcp.Router.Safe.{IsNamedBack, routed_steps_are_safe}
use simple_lcp.Router.Audit.{answered_chain_is_logged}

serving_step :
    {xs : List Step} {p m : String} {n : ℕ}
    → ServedBy xs p m n
    → (s : Step) × IsIn s xs × (s.provider ≡ p) × (s.model ≡ m)
serving_step by = (
  by.step,
  subst (λ ys. IsIn by.step ys) (sym by.splits)
      (IsIn-append_right by.step by.before (by.step ∷ by.after) (inl refl)),
  by.same_provider,
  by.same_model,
)

module _ (N : Floats) (facts : Facts N) (T : HealthTable) (U : Upstream) (cfg : Config)
    (profile : String) (session : Option String) where
  chosen-some :
      (chain xs : List Step) (h : Step) (rest : List Step)
      → xs ≡ h ∷ rest
      → chosen T U cfg profile session chain (some xs) ≡ xs
  chosen-some chain xs h rest e = rw e refl

  -- When the registry leads every step's provider-side name back to the step's model: a request for
  -- which the router answered a chain and which the walk then served was served by a step whose
  -- breaker let it pass when the chain was chosen, that no block rule of its task and profile is
  -- about, and whose provider has a step of the same model on the profile's own chain.
  pub routed_request_is_served_safely :
      (sc : Scope N) (d : Detail N) (now : Now) (chain xs : List Step)
      (st : RouterState N facts T cfg profile) (s : State T U cfg profile session) (r : U.Response)
      (status : ℕ) (p m : String)
      → ((c : Step) → IsIn c chain → IsNamedBack N facts T cfg profile c)
      → (select_step N facts T cfg profile sc d now chain st).0 ≡ some xs
      → (walk_chain T U cfg profile session chain (some xs) s).0 ≡ served r status p m
      → (by : Step) × IsIn by xs
        × (by.provider ≡ p)
        × (by.model ≡ m)
        × (is_free N facts T cfg profile st.breaker now by ≡ true)
        × (is_blocked N facts (narrow N facts T cfg profile sc d).task profile (rules_of N sc) by
            ≡ false)
        × ((c : Step) × IsIn c chain
            × (by.provider ≡ c.provider)
            × (logical_model_name facts.registry by.model
                ≡ logical_model_name facts.registry c.model))
  routed_request_is_served_safely sc d now chain xs st s r status p m back routed reply =
      let (h, rest, logged, same, recorded, reports, bounded) =
        answered_chain_is_logged N facts T cfg profile sc d now chain xs st routed in
      let (r', s') = walk_chain T U cfg profile session chain (some xs) s in
      let accounts : Accounts T U cfg profile session
          (chosen T U cfg profile session chain (some xs)) s r' s' =
        walk_chain-Accounts T U cfg profile session chain (some xs) s in
      let (n, errors, by) =
        subst (λ x. Accounts T U cfg profile session xs s x s') reply
          (subst (λ ys. Accounts T U cfg profile session ys s r' s')
            (chosen-some chain xs h rest same) accounts) in
      let (step, i, q, e) = serving_step by in
      let (free, allowed, from) =
        routed_steps_are_safe N facts T cfg profile sc d now chain xs st back routed step i in
      (step, i, q, e, free, allowed, from)
