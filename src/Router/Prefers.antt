-- ===== src/Router/Prefers.antt =====
-- The prefer rules of src/api/router.py: a preference that resolves to a model is what the answered
-- chain begins with.
use simple_lcp.Prelude.{
  ℕ, String, ◌≡◌, refl, sym, ap, subst, ◌∙◌, true, select, some, List, [], ◌∷◌, ◌++◌, string_eq,
  contains, arith, IsIn,
}
use simple_lcp.Breaker.Health.{Now}
use simple_lcp.Breaker.Table.{HealthTable}
use simple_lcp.Breaker.Ops.{Breaker}
use simple_lcp.Chain.Forward.{Step, Config}
use simple_lcp.Router.Scores.{Floats, Facts}
use simple_lcp.Router.Rules.{Fired, Preference, resolve_prefer, apply_blocks, scoped_policy}
use simple_lcp.Router.Build.{as_target}
use simple_lcp.Router.Built.{built-heads}
use simple_lcp.Router.Targets.{Uses}
use simple_lcp.Router.Select.{
  RouterState, available_steps, fitting, conclude, conclude_with, prefer_or_score, route_blocked,
  route, select_enabled, select_step,
}
use simple_lcp.Router.Request.{Detail, Scope, rules_of, effective_policy, is_enabled}
use simple_lcp.Router.Routed.{narrow, survivors, survivors-candidates}
use simple_lcp.Router.Resolved.{actions, resolve_prefer-IsResolved}

module _ (N : Floats) (facts : Facts N) where
  late :
      (fs gs : List Fired)
      → contains "prefer" (actions gs) ≡ true
      → contains "prefer" (actions (fs ++ gs)) ≡ true
  unfolding contains
  late [] gs h = h
  late (f ∷ fs) gs h = ground (arith, late fs gs h)

  module _ (T : HealthTable) (cfg : Config) (profile : String) where
    fitting-some :
        (tokens : ℕ) (p : Preference N facts) (t : String)
        → (fitting N facts T cfg profile tokens p).target ≡ some t
        → fitting N facts T cfg profile tokens p ≡ p
    unfolding fitting
    fitting-some tokens p t h = ground arith

    conclude-prefers :
        (d : Detail N) (policy : String) (fired : List String) (head h : Step) (rest : List Step)
        → contains "prefer" fired ≡ true
        → (conclude N facts T cfg profile d policy fired head (h ∷ rest)).chain ≡ some (h ∷ rest)
    unfolding conclude
    conclude-prefers d policy fired head h rest e = rw e (ground arith)

    answers :
        (sc : Scope N) (d : Detail N) (policy : String) (min_score : N.F) (b : Breaker T)
        (fired : List Fired) (blocked : List String) (kept : List Step) (t : String)
        (q : Preference N facts)
        → fitting N facts T cfg profile d.token_count
            (resolve_prefer N facts (rules_of N sc) kept d.task profile [])
          ≡ q
        → q.target ≡ some t
        → contains "prefer" (actions q.fired) ≡ true
        → (c : Step) → IsIn c kept
        → Uses N facts t c
        → (h : Step) × (rest : List Step) × ((route_blocked N facts T cfg profile sc d policy
              min_score b fired blocked kept).chain
            ≡ some (h ∷ rest))
          × ((c : Step) × IsIn c kept × Uses N facts t c × (h ≡ as_target N facts t c))
    unfolding route_blocked prefer_or_score conclude_with
    answers sc d policy min_score b fired blocked [] t q same e recorded c i uses = absurd i
    answers sc d policy min_score b fired blocked (head ∷ more) t q same e recorded c i uses =
        let (h, rest, built, from, least) =
          built-heads N facts t T cfg profile q.provider d.token_count b c (head ∷ more) i uses in
        let all = actions (fired ++ q.fired) in
        (
          h,
          rest,
          ap
                (λ (x : Preference N facts).
                  (prefer_or_score N facts T cfg profile sc d policy min_score
                    (actions (fired ++ x.fired)) blocked b head more x.provider x.target).chain)
                same
              ∙ ap
                  (λ o.
                    (prefer_or_score N facts T cfg profile sc d policy min_score all blocked b head
                      more q.provider o).chain)
                  e
              ∙ ap (λ xs. (conclude N facts T cfg profile d policy all head xs).chain) built
              ∙ conclude-prefers d policy all head h rest (late fired q.fired recorded),
          from,
        )

    prefer_wins_blocked :
        (sc : Scope N) (d : Detail N) (policy : String) (min_score : N.F) (b : Breaker T)
        (fired : List Fired) (blocked : List String) (kept : List Step) (t : String)
        → (fitting N facts T cfg profile d.token_count
            (resolve_prefer N facts (rules_of N sc) kept d.task profile [])).target
          ≡ some t
        → (h : Step) × (rest : List Step) × ((route_blocked N facts T cfg profile sc d policy
              min_score b fired blocked kept).chain
            ≡ some (h ∷ rest))
          × ((c : Step) × IsIn c kept × Uses N facts t c × (h ≡ as_target N facts t c))
    unfolding route_blocked
    prefer_wins_blocked sc d policy min_score b fired blocked kept t e =
        let p = resolve_prefer N facts (rules_of N sc) kept d.task profile [] in
        let same = fitting-some d.token_count p t e in
        let ((c, i, uses), recorded) =
          resolve_prefer-IsResolved N facts (rules_of N sc) kept d.task profile [] t
            (ap (λ (q : Preference N facts). q.target) (sym same) ∙ e) in
        answers sc d policy min_score b fired blocked kept t
          (fitting N facts T cfg profile d.token_count p) refl e
          (subst (λ (q : Preference N facts). contains "prefer" (actions q.fired) ≡ true) (sym same)
            recorded)
          c i uses

    -- the preference that the remaining steps are left with
    abbrev preference : Scope N → Detail N → List Step → Preference N facts
    preference sc d kept =
        fitting N facts T cfg profile d.token_count
          (resolve_prefer N facts (rules_of N sc) kept d.task profile [])

    select_enabled-prefers :
        (sc : Scope N) (d : Detail N) (now : Now) (chain : List Step)
        (st : RouterState N facts T cfg profile) (t : String)
        → (preference sc (narrow N facts T cfg profile sc d) (
            survivors N facts T cfg profile sc
              (narrow N facts T cfg profile sc d)
              now
              st.breaker
              chain)).target
          ≡ some t
        → (h : Step) × (rest : List Step) × ((select_enabled N facts T cfg profile sc d now chain
              st).0
            ≡ some (h ∷ rest))
          × ((c : Step) × IsIn c (
                survivors N facts T cfg profile sc
                  (narrow N facts T cfg profile sc d)
                  now
                  st.breaker
                  chain)
              × Uses N facts t c
              × (h ≡ as_target N facts t c))
    unfolding select_enabled route
    select_enabled-prefers sc d now chain st t e =
        let d' = narrow N facts T cfg profile sc d in
        let (kept, b) = available_steps N facts T cfg profile now chain st.breaker in
        let blocks = apply_blocks N facts (rules_of N sc) kept d'.task profile in
        let (policy, min_score) = effective_policy N sc in
        let scoped = scoped_policy N (rules_of N sc) d'.task profile policy in
        let left = survivors N facts T cfg profile sc d' now st.breaker chain in
        let (h, rest, answered, from) =
          prefer_wins_blocked sc d' scoped min_score b blocks.fired blocks.blocked_models left t
            e in
        (
          h,
          rest,
          ap
                (λ cs.
                  (route_blocked N facts T cfg profile sc d' scoped min_score b blocks.fired
                    blocks.blocked_models cs).chain)
                (survivors-candidates N facts T cfg profile sc d' now chain st.breaker)
              ∙ answered,
          from,
        )

    -- Under a fired prefer rule whose model some remaining step is of and can hold the request, an
    -- enabled router answers a chain, and the chain begins with that model at the provider of such a
    -- step: neither the scores, the floor nor the margin gate are asked.
    prefer_wins :
        (sc : Scope N) (d : Detail N) (now : Now) (chain : List Step)
        (st : RouterState N facts T cfg profile) (t : String)
        → is_enabled N st.enabled sc ≡ true
        → (preference sc (narrow N facts T cfg profile sc d) (
            survivors N facts T cfg profile sc
              (narrow N facts T cfg profile sc d)
              now
              st.breaker
              chain)).target
          ≡ some t
        → (h : Step) × (rest : List Step) × ((select_step N facts T cfg profile sc d now chain st).0
            ≡ some (h ∷ rest))
          × ((c : Step) × IsIn c (
                survivors N facts T cfg profile sc
                  (narrow N facts T cfg profile sc d)
                  now
                  st.breaker
                  chain)
              × Uses N facts t c
              × (h ≡ as_target N facts t c))
    unfolding select_step survivors select
    prefer_wins sc d now [] st t on e =
        let (h, rest, answered, (c, i, uses, same)) = select_enabled-prefers sc d now [] st t e in
        absurd i
    prefer_wins sc d now (s ∷ chain) st t on e =
        rw on (select_enabled-prefers sc d now (s ∷ chain) st t e)
