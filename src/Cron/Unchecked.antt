-- ===== src/Cron/Unchecked.antt =====
-- The schedule of a new job, which `_validate_op` of src/api/work_cron.py does not check as it checks that of
-- an edit.
use simple_lcp.Prelude.{
  ◌≤◌, String, ◌≡◌, refl, sym, ap, ◌∙◌, Bool, true, false, not, ◌&&◌, Option, none, some, List,
  ◌==◌, string_eq, leb, bind-some, some-inj, arith, Option-cases, inl, inr, ◌>>=◌, if◌then◌else◌,
}
use simple_lcp.Profiles.Fields.{char_count}
use simple_lcp.Router.Names.{strip, lower_text}
use simple_lcp.Intent.Chars.{is_nil, is_in}
use simple_lcp.Cron.Fields.{
  Scheduled, Given, Payload, NewJob, Body, creates, Op, bare, is_schedule, passing, name_of,
  schedule_of, is_work, truthy, deliver_of, repeat_of, skill_of, workdir_of,
}
use simple_lcp.Cron.Ops.{
  new_job, changed, changes_of, action_of, profile_of, target_of, creation_of, validate_op,
}
use simple_lcp.Cron.Shapes.{passing-holds}

abbrev pub at : String → Given → Given
at s g = record g { schedule = some s }

passes : (b : Bool) (s : String) → b ≡ true → passing (true && b) s ≡ some s
passes b s e = rw e refl

accepted :
    (s : String)
    → is_nil (strip s) ≡ false
    → char_count (strip s) ≤ 64
    → schedule_of (bare (some s)) ≡ some (strip s)
unfolding schedule_of bare
accepted s n short = rw n (passes (leb (char_count (strip s)) 64) (strip s) (ground arith))

bind_over :
    {A B : Type 0} (o : Option A) (f g : A → Option B) (b c : B)
    → ((a : A) → f a ≡ some b → g a ≡ some c)
    → (o >>= f) ≡ some b
    → (o >>= g) ≡ some c
bind_over none f g b c h e = cc
bind_over (some a) f g b c h e = h a e

bind_to :
    {A B : Type 0} (o : Option A) (f : A → Option B) (a : A) (b : B)
    → o ≡ some a
    → f a ≡ some b
    → (o >>= f) ≡ some b
bind_to none f a b h e = cc
bind_to (some x) f a b h e = ap f (some-inj h) ∙ e

job_at :
    (g : Given) (j : NewJob) (s : String)
    → is_nil (strip s) ≡ false
    → char_count (strip s) ≤ 64
    → new_job g ≡ some j
    → new_job (at s g) ≡ some (record j { schedule = strip s })
unfolding new_job
job_at g j s n short e =
    let j' : NewJob = record j { schedule = strip s } in
    bind_over (name_of (bare g.name)) _ _ j j'
      (λ name k1.
        let (schedule, e2, k2) = bind-some (schedule_of (bare g.schedule)) _ j k1 in
        bind_to (schedule_of (bare (some s))) _ (strip s) j' (accepted s n short) (
          bind_over (passing (is_work (bare g.prompt) (bare g.script) (truthy g.no_agent)) "") _ _ j
            j'
            (λ work k3.
              bind_over (deliver_of (bare g.deliver)) _ _ j j'
                (λ deliver k4.
                  bind_over (repeat_of g.repeat) _ _ j j'
                    (λ repeat k5.
                      bind_over (skill_of (bare g.skill)) _ _ j j'
                        (λ skill k6.
                          bind_over (workdir_of (bare g.workdir)) _ _ j j'
                            (λ workdir k7.
                              ap (λ (x : NewJob). some (record x { schedule = strip s }))
                                (some-inj k7))
                            k6)
                        k5)
                    k4)
                k3)
            k2))
      e

refused :
    (s : String)
    → is_nil (strip s) ≡ false
    → is_schedule (strip s) ≡ false
    → changed is_schedule (bare (some s)) ≡ none
unfolding changed bare
refused s n bad = rw (n, bad) refl

edit_refused :
    (g : Given) (s : String)
    → is_nil (strip s) ≡ false
    → is_schedule (strip s) ≡ false
    → changes_of (at s g) ≡ none
unfolding changes_of
edit_refused g s n bad =
    elim (Option-cases (changed (λ t. not (is_in "\n" t) && leb (char_count t) 80) (bare g.name))) [
      | inl e ↦ rw e refl
      | inr (name, e) ↦ rw (e, refused s n bad) refl
    ]

creation_at :
    (p : Payload) (b : Body) (s : String)
    → is_nil (strip s) ≡ false
    → char_count (strip s) ≤ 64
    → creation_of p ≡ some b
    → (j : NewJob) × (creation_of (record p { own = at s p.own })
        ≡ some (creates (record j { schedule = strip s })))
unfolding creation_of
creation_at p b s n short e =
    let (j, e1, k1) = bind-some (new_job p.own) _ b e in (j, rw (job_at p.own j s n short e1) refl)

choose : {A : Type 0} → (b : Bool) (x y : A) → b ≡ true → (if b then x else y) ≡ x
choose b x y e = rw e refl

chosen : {A : Type 0} → (b : Bool) (x y z : A) → b ≡ true → (if b then x else y) ≡ z → x ≡ z
chosen b x y z e h = sym (choose b x y e) ∙ h

action_kept : (p : Payload) (a : String) → action_of p ≡ some a → lower_text (bare p.action) ≡ a
unfolding action_of
action_kept p a e = (passing-holds _ _ a e).1

-- Let s be a text of at most 64 characters, not blank, that is no schedule. Whenever a creation is accepted, it
-- is also accepted with s as its schedule, and s is the schedule of the new job; while the fields of an
-- edit are refused with s as their schedule, whatever else they hold.
pub create_takes_any_schedule :
    (snap : Option (List Scheduled)) (p : Payload) (op : Op) (g : Given) (s : String)
    → is_nil (strip s) ≡ false
    → char_count (strip s) ≤ 64
    → is_schedule (strip s) ≡ false
    → lower_text (bare p.action) ≡ "create"
    → validate_op snap p ≡ some op
    → ((j : NewJob) × (validate_op snap (record p { own = at s p.own })
          ≡ some (record op { body = creates (record j { schedule = strip s }) })))
      × (changes_of (at s g) ≡ none)
unfolding validate_op action_of profile_of
create_takes_any_schedule snap p op g s n short bad is_create e =
    let (action, e1, k1) = bind-some (action_of p) _ op e in
    let (profile, e2, k2) = bind-some (profile_of snap p) _ op k1 in
    let (body, e3, k3) =
      bind-some (if action == "create" then creation_of p else target_of snap action profile p) _ op
        k2 in
    let creating =
      (string_eq.beq_iff action "create").1 (sym (action_kept p action e1) ∙ is_create) in
    let (j, made) = creation_at p body s n short (chosen _ _ _ (some body) creating e3) in
    let q : Payload = record p { own = at s p.own } in
    (
      (
        j,
        bind_to (action_of p) _ action _ e1 (
            bind_to (profile_of snap p) _ profile _ e2 (
              bind_to
                (if action == "create" then creation_of q else target_of snap action profile q) _
                (creates (record j { schedule = strip s })) _ (choose _ _ _ creating ∙ made)
                (ap
                  (λ (o : Op). some (record o { body = creates (record j { schedule = strip s }) }))
                  (some-inj k3)))),
      ),
      edit_refused g s n bad,
    )
