-- ===== src/Router/Gateway.antt =====
-- `try_chain` of src/api/request_pipeline.py as a whole: the router's answer, with what its questions make
-- of the breaker, and the walk down the chain that it leaves. The memory harness and the pre-flight's
-- warning are left out.
use simple_lcp.Prelude.{
  String, ◌≡◌, ◌≢◌, refl, sym, ap, subst, ◌∙◌, inl, inr, Bool, true, false, not, Option, none, some,
  List, [], ◌∷◌, IsIn, All, if◌then◌else◌,
}
use simple_lcp.Breaker.Health.{Key, Now}
use simple_lcp.Breaker.Table.{HealthTable}
use simple_lcp.Breaker.Ops.{Breaker, is_available}
use simple_lcp.Breaker.Effects.{entry}
use simple_lcp.Breaker.Reads.{check_makes_no_entry}
use simple_lcp.Chain.Forward.{Step, Config, Upstream}
use simple_lcp.Chain.Prepare.{key_of}
use simple_lcp.Chain.Walk.{Result, State, walk_chain, chosen}
use simple_lcp.Chain.Faults.{IsOther, bystanders_unharmed as walk_spares}
use simple_lcp.Router.Scores.{Floats, Facts}
use simple_lcp.Router.Build.{as_target}
use simple_lcp.Router.Request.{Detail, Scope, Decision, is_enabled}
use simple_lcp.Router.Select.{RouterState, available_steps, select_enabled, select_step}
use simple_lcp.Router.Built.{built-traces}
use simple_lcp.Router.Routed.{narrow, survivors, select_step-IsBuilt}
use simple_lcp.Router.Safe.{survivor-IsIn, base_url_of-as_target}

module _ (N : Floats) (facts : Facts N) (T : HealthTable) (U : Upstream) (cfg : Config)
    (profile : String) (session : Option String) where
  abbrev R : Type 0
  R = RouterState N facts T cfg profile

  -- the router's state over the breaker of the request
  abbrev router_of : Bool → List Decision → State T U cfg profile session → R
  router_of enabled decisions s = record {
    enabled = enabled;
    decisions = decisions;
    breaker = s.breaker;
  }

  -- the answer of a request, its state, and the router's
  pub try_chain :
      Scope N
      → Detail N
      → List Step
      → Bool
      → List Decision
      → State T U cfg profile session
      → (Result U.Response × State T U cfg profile session) × R
  try_chain sc d chain enabled decisions s =
      let (reordered, st) =
        select_step N facts T cfg profile sc d (U.now s.world) chain
          (router_of enabled decisions s) in
      (walk_chain T U cfg profile session chain reordered (record s { breaker = st.breaker }), st)

  entry-available_steps :
      (now : Now) (chain : List Step) (b : Breaker T) (k : Key)
      → All (IsOther T U cfg profile session k) chain
      → entry T (available_steps N facts T cfg profile now chain b).1 k ≡ entry T b k
  unfolding available_steps
  entry-available_steps now [] b k h = refl
  entry-available_steps now (s ∷ chain) b k h =
      entry-available_steps now chain (is_available T b (key_of cfg profile s) now).1 k h.1
      ∙ check_makes_no_entry T b (key_of cfg profile s) k now (inr h.0)

  entry-switched :
      (on : Bool) (r : Option (List Step) × R) (st : R) (k : Key)
      → entry T r.1.breaker k ≡ entry T st.breaker k
      → entry T (if not on then (none, st) else r).1.breaker k ≡ entry T st.breaker k
  entry-switched true r st k h = h
  entry-switched false r st k h = refl

  entry-select_step :
      (sc : Scope N) (d : Detail N) (now : Now) (chain : List Step) (st : R) (k : Key)
      → All (IsOther T U cfg profile session k) chain
      → entry T (select_step N facts T cfg profile sc d now chain st).1.breaker k
        ≡ entry T st.breaker k
  unfolding select_step select_enabled
  entry-select_step sc d now [] st k h = refl
  entry-select_step sc d now (s ∷ chain) st k h =
      entry-switched (is_enabled N st.enabled sc) _ st k
        (entry-available_steps now (s ∷ chain) st.breaker k h)

  key_of-as_target :
      (target : String) (c : Step)
      → key_of cfg profile (as_target N facts target c) ≡ key_of cfg profile c
  unfolding key_of as_target
  key_of-as_target target c =
      ap (λ (u : String). record { provider = c.provider; base_url = u; profile = profile })
        (base_url_of-as_target N facts T cfg profile target c)

  -- Every step that the router answers asks the breaker under the key of a step of the profile's chain.
  routed_step_key :
      (sc : Scope N) (d : Detail N) (now : Now) (chain xs : List Step) (st : R)
      → (select_step N facts T cfg profile sc d now chain st).0 ≡ some xs
      → (s : Step) → IsIn s xs
      → (c : Step) × IsIn c chain × (key_of cfg profile s ≡ key_of cfg profile c)
  routed_step_key sc d now chain xs st h s i =
      let d' = narrow N facts T cfg profile sc d in
      let b' = (select_step N facts T cfg profile sc d now chain st).1.breaker in
      let (preferred, target, e) =
        select_step-IsBuilt N facts T cfg profile sc d now chain xs st h in
      elim (built-traces N facts target T cfg profile preferred d'.token_count b' s
        (survivors N facts T cfg profile sc d' now st.breaker chain)
        (subst (λ ys. IsIn s ys) (sym e) i)) [
          | inl j ↦
              (s, (survivor-IsIn N facts T cfg profile sc d' now st.breaker s chain j).0, refl)
          | inr (c, j, uses, same) ↦ (
            c,
            (survivor-IsIn N facts T cfg profile sc d' now st.breaker c chain j).0,
            ap (key_of cfg profile) same ∙ key_of-as_target target c,
          )
        ]

  others-All :
      (k : Key) (xs chain : List Step)
      → ((s : Step)
          → IsIn s xs
          → (c : Step) × IsIn c chain × (key_of cfg profile s ≡ key_of cfg profile c))
      → ((c : Step) → IsIn c chain → k ≢ key_of cfg profile c)
      → All (IsOther T U cfg profile session k) xs
  others-All k [] chain f h = tt
  others-All k (x ∷ xs) chain f h =
      let (c, i, e) = f x (inl refl) in
      (λ same. h c i (same ∙ e), others-All k xs chain (λ s j. f s (inr j)) h)

  All-IsIn :
      (k : Key) (chain : List Step)
      → All (IsOther T U cfg profile session k) chain
      → (c : Step) → IsIn c chain
      → k ≢ key_of cfg profile c
  All-IsIn k [] h c i = absurd i
  All-IsIn k (x ∷ xs) h c (inl e) = λ same. h.0 (same ∙ ap (key_of cfg profile) e)
  All-IsIn k (x ∷ xs) h c (inr i) = All-IsIn k xs h.1 c i

  chosen-All :
      (k : Key) (chain : List Step) (o : Option (List Step))
      → All (IsOther T U cfg profile session k) chain
      → ((xs : List Step) → o ≡ some xs → All (IsOther T U cfg profile session k) xs)
      → All (IsOther T U cfg profile session k) (chosen T U cfg profile session chain o)
  chosen-All k chain none h f = h
  chosen-All k chain (some []) h f = h
  chosen-All k chain (some (x ∷ xs)) h f = f (x ∷ xs) refl

  -- A request, with the router's choice of the chain and the walk, leaves the health entry of every key
  -- that is not the key of a step of the profile's chain as it was.
  pub request_spares_bystanders :
      (sc : Scope N) (d : Detail N) (chain : List Step) (enabled : Bool) (decisions : List Decision)
      (s : State T U cfg profile session) (k : Key)
      → All (IsOther T U cfg profile session k) chain
      → entry T (try_chain sc d chain enabled decisions s).0.1.breaker k ≡ entry T s.breaker k
  unfolding try_chain
  request_spares_bystanders sc d chain enabled decisions s k h =
      let now = U.now s.world in
      let st = router_of enabled decisions s in
      let (reordered, st') = select_step N facts T cfg profile sc d now chain st in
      walk_spares T U cfg profile session chain reordered (record s { breaker = st'.breaker }) k
        (chosen-All k chain reordered h (λ xs e.
          others-All k xs chain (routed_step_key sc d now chain xs st e) (All-IsIn k chain h)))
      ∙ entry-select_step sc d now chain st k h
