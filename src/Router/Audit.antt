-- ===== src/Router/Audit.antt =====
-- The decision log of src/api/router.py: what `select_step` records of the chain that it answers, and
-- how long the log grows.
use simple_lcp.Prelude.{
  subst, ℕ, ◌≤◌, String, ◌≡◌, refl, sym, ap, ◌⊎◌, Bool, true, false, not, ◌&&◌, Option, some, none,
  List, [], ◌∷◌, ◌++◌, ◌==◌, string_eq, contains, length, arith, if◌then◌else◌,
}
use simple_lcp.Breaker.Health.{Now}
use simple_lcp.Breaker.Table.{HealthTable}
use simple_lcp.Breaker.Ops.{Breaker}
use simple_lcp.Chain.Forward.{Step, Config}
use simple_lcp.Router.Scores.{Floats, Facts}
use simple_lcp.Router.Rules.{Fired}
use simple_lcp.Router.Select.{
  Answer, RouterState, decide, action_of, conclude, conclude_with, head_stands, take_target,
  score_models, prefer_or_score, route_blocked, route, logged, select_enabled, select_step,
}
use simple_lcp.Router.Request.{
  Detail, Scope, Decision, keep_last, record_decision, held_by_margin, is_enabled,
}

length-keep_last : {A : Type 0} (n : ℕ) (xs : List A) → length (keep_last n xs) ≤ n
unfolding keep_last
length-keep_last n [] = omega arith
length-keep_last n (x ∷ xs) = ground (arith, length-keep_last n xs)

offered :
    (t : Bool) (ys xs : List Step)
    → (if t then none else some ys) ≡ some xs
    → (t ≡ false) × (ys ≡ xs)
offered true ys xs h = cc
offered false ys xs h = (refl, ground arith)

module _ (N : Floats) (facts : Facts N) (T : HealthTable) (cfg : Config) (profile : String) where
  -- A decision that a chain was answered, whose head is `h`.
  abbrev Reports : Step → Decision → Type 0
  Reports h d =
      (d.provider ≡ h.provider)
      × (d.model ≡ h.model)
      × ((d.action ≡ "prefer") ⊎ ((d.action ≡ "explore") ⊎ (d.action ≡ "reorder")))

  -- An answered chain is not empty, and a decision reports its head.
  abbrev IsReported : Answer N facts T cfg profile → Type 0
  IsReported a =
      (xs : List Step)
      → a.chain ≡ some xs
      → (h : Step) × (rest : List Step) × (d : Decision) × (xs ≡ h ∷ rest)
        × (a.decision ≡ some d)
        × Reports h d

  action_of-cases :
      (fired unchanged : Bool) (policy : String)
      → (unchanged && not fired) ≡ false
      → let a = action_of N facts T cfg profile fired policy unchanged in
        (a ≡ "prefer") ⊎ ((a ≡ "explore") ⊎ (a ≡ "reorder"))
  unfolding action_of
  action_of-cases fired unchanged policy h = ground arith

  conclude-IsReported :
      (d : Detail N) (policy : String) (fired : List String) (head : Step) (built : List Step)
      → IsReported (conclude N facts T cfg profile d policy fired head built)
  unfolding conclude decide
  conclude-IsReported d policy fired head [] xs h = cc
  conclude-IsReported d policy fired head (s ∷ built) xs h =
      let f = contains "prefer" fired in
      let u = s.provider == head.provider && s.model == head.model in
      let (open_ended, same) = offered (u && not f) (s ∷ built) xs h in
      (s, built, _, sym same, refl, (refl, refl, action_of-cases f u policy open_ended))

  head_stands-IsReported :
      (d : Detail N) (policy : String) (fired : List String) (head : Step) (action : String)
      → IsReported (head_stands N facts T cfg profile d policy fired head action)
  unfolding head_stands
  head_stands-IsReported d policy fired head action xs h = cc

  take_target-IsReported :
      (d : Detail N) (policy : String) (fired : List String) (b : Breaker T) (head : Step)
      (rest : List Step) (provider found : Option String)
      → IsReported (take_target N facts T cfg profile d policy fired b head rest provider found)
  unfolding take_target conclude_with
  take_target-IsReported d policy fired b head rest provider none =
      head_stands-IsReported d policy fired head "below_min_score"
  take_target-IsReported d policy fired b head rest provider (some target) =
      conclude-IsReported d policy fired head _

  either-IsReported :
      (t : Bool) (a c : Answer N facts T cfg profile)
      → IsReported a
      → IsReported c
      → IsReported (if t then a else c)
  either-IsReported true a c p q = p
  either-IsReported false a c p q = q

  prefer_or_score-IsReported :
      (sc : Scope N) (d : Detail N) (policy : String) (min_score : N.F)
      (fired blocked : List String) (b : Breaker T) (head : Step) (rest : List Step)
      (provider preferred : Option String)
      → IsReported (
          prefer_or_score N facts T cfg profile sc d policy min_score fired blocked b head rest
            provider preferred)
  unfolding prefer_or_score score_models conclude_with
  prefer_or_score-IsReported sc d policy min_score fired blocked b head rest provider
        (some target) =
      conclude-IsReported d policy fired head _
  prefer_or_score-IsReported sc d policy min_score fired blocked b head rest provider none =
      either-IsReported (held_by_margin N sc.intent_margin_gate d) _ _
        (head_stands-IsReported d policy fired head "margin_gate")
        (take_target-IsReported d policy fired b head rest provider _)

  route_blocked-IsReported :
      (sc : Scope N) (d : Detail N) (policy : String) (min_score : N.F) (b : Breaker T)
      (fired : List Fired) (blocked : List String) (kept : List Step)
      → IsReported (route_blocked N facts T cfg profile sc d policy min_score b fired blocked kept)
  unfolding route_blocked
  route_blocked-IsReported sc d policy min_score b fired blocked [] xs h = cc
  route_blocked-IsReported sc d policy min_score b fired blocked (head ∷ rest) xs h =
      prefer_or_score-IsReported sc d policy min_score _ blocked b head rest _ _ xs h

  -- An answered chain is not empty and has its head as the newest entry of the log.
  abbrev IsLogged :
      RouterState N facts T cfg profile
      → Option (List Step) × RouterState N facts T cfg profile
      → Type 0
  IsLogged st (answer, st') =
      (length st.decisions ≤ 50 → length st'.decisions ≤ 50)
      × ((xs : List Step)
          → answer ≡ some xs
          → (h : Step) × (rest : List Step) × (d : Decision) × (xs ≡ h ∷ rest)
            × (st'.decisions ≡ record_decision d st.decisions)
            × Reports h d)

  logged-bounded :
      (d : Option Decision) (ds : List Decision)
      → length ds ≤ 50
      → length (logged N facts T cfg profile d ds) ≤ 50
  unfolding record_decision
  logged-bounded none ds h = h
  logged-bounded (some d) ds h = length-keep_last 50 (ds ++ d ∷ [])

  select_enabled-IsLogged :
      (sc : Scope N) (d : Detail N) (now : Now) (chain : List Step)
      (st : RouterState N facts T cfg profile)
      → IsLogged st (select_enabled N facts T cfg profile sc d now chain st)
  unfolding select_enabled route
  select_enabled-IsLogged sc d now chain st = (
    logged-bounded _ st.decisions,
    λ xs h.
        let (head, rest, dec, e, r, reports) = route_blocked-IsReported sc _ _ _ _ _ _ _ xs h in
        (head, rest, dec, e, ap (λ o. logged N facts T cfg profile o st.decisions) r, reports),
  )

  switched-IsLogged :
      (on : Bool) (st : RouterState N facts T cfg profile)
      (r : Option (List Step) × RouterState N facts T cfg profile)
      → IsLogged st r
      → IsLogged st (if not on then (none, st) else r)
  switched-IsLogged true st r p = p
  switched-IsLogged false st r p = (λ h. h, λ xs h. cc)

  select_step-IsLogged :
      (sc : Scope N) (d : Detail N) (now : Now) (chain : List Step)
      (st : RouterState N facts T cfg profile)
      → IsLogged st (select_step N facts T cfg profile sc d now chain st)
  unfolding select_step
  select_step-IsLogged sc d now [] st = (λ h. h, λ xs h. cc)
  select_step-IsLogged sc d now (s ∷ chain) st =
      switched-IsLogged (is_enabled N st.enabled sc) st _
        (select_enabled-IsLogged sc d now (s ∷ chain) st)

  -- Whenever the router answers a chain, that chain has a head, and the newest entry of the decision
  -- log names its provider and model, with an action that says that the chain was changed or preferred;
  -- the log then holds 50 entries at most.
  pub answered_chain_is_logged :
      (sc : Scope N) (d : Detail N) (now : Now) (chain xs : List Step)
      (st : RouterState N facts T cfg profile)
      → (select_step N facts T cfg profile sc d now chain st).0 ≡ some xs
      → let st' = (select_step N facts T cfg profile sc d now chain st).1 in
        (h : Step) × (rest : List Step) × (e : Decision) × (xs ≡ h ∷ rest)
        × (st'.decisions ≡ record_decision e st.decisions)
        × Reports h e
        × (length st'.decisions ≤ 50)
  unfolding record_decision
  answered_chain_is_logged sc d now chain xs st answered =
      let st' = (select_step N facts T cfg profile sc d now chain st).1 in
      let (h, rest, e, same, recorded, reports) =
        (select_step-IsLogged sc d now chain st).1 xs answered in
      (
        h,
        rest,
        e,
        same,
        recorded,
        reports,
        subst (λ ds. length ds ≤ 50) (sym recorded) (length-keep_last 50 (st.decisions ++ e ∷ [])),
      )
