-- ===== src/Cron/Sound.antt =====
-- What an operation that `_validate_op` of src/api/work_cron.py accepts is like.
use simple_lcp.Prelude.{
  bind-some, ℕ, ◌≤◌, String, ◌≡◌, ◌≢◌, inl, inr, refl, subst, Bool, true, false, ◌&&◌, ◌||◌, leb,
  Option, none, some, List, ◌==◌, string_eq, ltb, contains, some-inj, Bool-cases, arith,
  if◌then◌else◌,
}
use simple_lcp.Profiles.Fields.{char_count}
use simple_lcp.Routes.Table.{starts_with}
use simple_lcp.Intent.Chars.{is_nil, is_in}
use simple_lcp.Cron.Fields.{
  Scheduled, Whole, no_integer, negative, whole, Given, Payload, NewJob, Changes, Body, targets, Op,
  actions, bare, or_none, is_schedule, is_file_name, passing, is_delivery, name_of, schedule_of,
  is_work, truthy, deliver_of, repeat_of, skill_of, workdir_of,
}
use simple_lcp.Cron.Ops.{
  new_job, changed, changes_of, profile_names, may_be, action_of, profile_of, job_of, edit_of,
  target_of, creation_of, validate_op,
}
use simple_lcp.Cron.Shapes.{
  passing-holds, AllPass, IsSmall, IsTarget, IsJob, IsChange, IsBody, IsSound,
}

or_none-AllPass :
    (p : String → Bool) (s : String) → (is_nil s || p s) ≡ true → AllPass p (or_none s)
or_none-AllPass p s h = elim (Bool-cases (is_nil s)) [
  | inl e ↦ rw e tt
  | inr e ↦ rw e (ground arith)
]

nonempty : (s : String) → is_nil s ≡ false → 1 ≤ char_count s
nonempty String.[] h = cc
nonempty (String.◌∷◌ c s) h = omega arith

or_none-some : (s : String) → is_nil s ≡ false → or_none s ≢ none
or_none-some s e = rw e (λ h. cc)

none-or_none : (s : String) → or_none s ≡ none → is_nil s ≡ true
none-or_none s h = elim (Bool-cases (is_nil s)) [ inl e ↦ e | inr e ↦ absurd (or_none-some s e h) ]

if-IsSmall :
    (b : Bool) (n : ℕ) (r : Option ℕ)
    → ltb 1000 n ≡ b
    → (if b then none else some (some n)) ≡ some r
    → IsSmall r
if-IsSmall true n r h e = cc
if-IsSmall false n r h e = subst (λ x. IsSmall x) (some-inj e) (ground arith)

repeat-IsSmall : (o : Option Whole) (r : Option ℕ) → repeat_of o ≡ some r → IsSmall r
unfolding repeat_of
repeat-IsSmall none r e = subst (λ x. IsSmall x) (some-inj e) tt
repeat-IsSmall (some no_integer) r e = cc
repeat-IsSmall (some negative) r e = cc
repeat-IsSmall (some (whole n)) r e = if-IsSmall (ltb 1000 n) n r refl e

new_job-IsJob : (g : Given) (j : NewJob) → new_job g ≡ some j → IsJob j
unfolding new_job name_of schedule_of is_work deliver_of skill_of workdir_of
new_job-IsJob g j e =
    let (name, e1, k1) = bind-some (name_of (bare g.name)) _ j e in
    let (schedule, e2, k2) = bind-some (schedule_of (bare g.schedule)) _ j k1 in
    let (work, e3, k3) =
      bind-some (passing (is_work (bare g.prompt) (bare g.script) (truthy g.no_agent)) "") _ j k2 in
    let (deliver, e4, k4) = bind-some (deliver_of (bare g.deliver)) _ j k3 in
    let (repeat, e5, k5) = bind-some (repeat_of g.repeat) _ j k4 in
    let (skill, e6, k6) = bind-some (skill_of (bare g.skill)) _ j k5 in
    let (workdir, e7, k7) = bind-some (workdir_of (bare g.workdir)) _ j k6 in
    let (p1, s1) = passing-holds _ _ name e1 in
    let (p2, s2) = passing-holds _ _ schedule e2 in
    let (p3, s3) = passing-holds _ _ work e3 in
    let (p4, s4) = passing-holds _ _ deliver e4 in
    let (p6, s6) = passing-holds _ _ skill e6 in
    let (p7, s7) = passing-holds _ _ workdir e7 in
    subst (λ x. IsJob x) (some-inj k7)
      (record {
        named =
            subst (λ s. (1 ≤ char_count s) × (char_count s ≤ 80) × (is_in "\n" s ≡ false)) s1
              (nonempty (bare g.name) (ground arith), ground arith, ground arith);
        timed =
            subst (λ s. (1 ≤ char_count s) × (char_count s ≤ 64)) s2
              (nonempty (bare g.schedule) (ground arith), ground arith);
        works = (
          or_none-AllPass is_file_name (bare g.script) (ground arith),
          or_none-AllPass _ (bare g.prompt) (ground arith),
        );
        does = λ n.
            or_none-some (bare g.script) (let q = none-or_none (bare g.prompt) n in ground arith);
        runs = λ n. or_none-some (bare g.script) (ground arith);
        delivers = subst (λ s. is_delivery s ≡ true) s4 p4;
        repeats = repeat-IsSmall g.repeat repeat e5;
        skilled =
            subst (λ s. AllPass (λ t. leb (char_count t) 64 && is_file_name t) (or_none s)) s6
              (or_none-AllPass _ (bare g.skill) p6);
        placed =
            subst (λ s. AllPass (starts_with "/your/data/") (or_none s)) s7
              (or_none-AllPass (starts_with "/your/data/") (bare g.workdir) p7);
      })

by_cases-AllPass :
    (b c : Bool) (p : String → Bool) (s : String) (o : Option String)
    → p s ≡ c
    → (if b then some none else if c then some (some s) else none) ≡ some o
    → AllPass p o
by_cases-AllPass true c p s o h e = subst (λ x. AllPass p x) (some-inj e) tt
by_cases-AllPass false true p s o h e = subst (λ x. AllPass p x) (some-inj e) h
by_cases-AllPass false false p s o h e = cc

changed-AllPass :
    (p : String → Bool) (s : String) (o : Option String) → changed p s ≡ some o → AllPass p o
unfolding changed
changed-AllPass p s o e = by_cases-AllPass (is_nil s) (p s) p s o refl e

kept_if : (b : Bool) (c d : Changes) → (if b then some c else none) ≡ some d → (b ≡ true) × (c ≡ d)
kept_if true c d e = (refl, some-inj e)
kept_if false c d e = cc

changes-IsChange : (g : Given) (c : Changes) → changes_of g ≡ some c → IsChange c
unfolding changes_of
changes-IsChange g c e =
    let (name, e1, k1) = bind-some (changed _ (bare g.name)) _ c e in
    let (schedule, e2, k2) = bind-some (changed is_schedule (bare g.schedule)) _ c k1 in
    let (prompt, e3, k3) = bind-some (changed _ (bare g.prompt)) _ c k2 in
    let (script, e4, k4) = bind-some (changed is_file_name (bare g.script)) _ c k3 in
    let (deliver, e5, k5) = bind-some (changed is_delivery (bare g.deliver)) _ c k4 in
    let (some_change, same) = kept_if _ _ c k5 in
    subst (λ x. IsChange x) same
      (record {
        some_change = some_change;
        named = changed-AllPass _ (bare g.name) name e1;
        prompted = changed-AllPass _ (bare g.prompt) prompt e3;
        timed = changed-AllPass is_schedule (bare g.schedule) schedule e2;
        runs = changed-AllPass is_file_name (bare g.script) script e4;
        delivers = changed-AllPass is_delivery (bare g.deliver) deliver e5;
      })

module _ (snap : Option (List Scheduled)) (action profile : String) (p : Payload) where
  edit-IsBody :
      (job : String) (b : Body)
      → action ≡ "edit"
      → IsTarget snap profile job
      → edit_of job p ≡ some b
      → IsBody snap action profile b
  unfolding edit_of
  edit-IsBody job b is_edit known e =
      let (c, e1, k1) = bind-some (changes_of _) _ b e in
      subst (λ x. IsBody snap action profile x) (some-inj k1)
        (is_edit, known, changes-IsChange _ c e1)

  edit_or_target-IsBody :
      (job : String) (b : Body) (is_edit : Bool)
      → (action == "create") ≡ false
      → (action == "edit") ≡ is_edit
      → IsTarget snap profile job
      → (if is_edit then edit_of job p else some (targets job)) ≡ some b
      → IsBody snap action profile b
  edit_or_target-IsBody job b true other h known e =
      edit-IsBody job b ((string_eq.beq_iff action "edit").0 h) known e
  edit_or_target-IsBody job b false other h known e =
      subst (λ x. IsBody snap action profile x) (some-inj e)
        (
          λ q. ground (arith, string_eq.beq_iff action "create"),
          λ q. ground (arith, string_eq.beq_iff action "edit"),
          known,
        )

  target-IsBody :
      (b : Body)
      → (action == "create") ≡ false
      → target_of snap action profile p ≡ some b
      → IsBody snap action profile b
  unfolding target_of job_of
  target-IsBody b other e =
      let (job, e1, k1) = bind-some (job_of snap profile p) _ b e in
      let (ok, same) = passing-holds _ _ job e1 in
      edit_or_target-IsBody job b _ other refl
        (subst (λ s. IsTarget snap profile s) same
          (nonempty (bare p.job_id) (ground arith), ground arith, ground arith))
        k1

  body-IsBody :
      (b : Body) (is_create : Bool)
      → (action == "create") ≡ is_create
      → (if is_create then creation_of p else target_of snap action profile p) ≡ some b
      → IsBody snap action profile b
  unfolding creation_of
  body-IsBody b true h e =
      let (j, e1, k1) = bind-some (new_job p.own) _ b e in
      subst (λ x. IsBody snap action profile x) (some-inj k1)
        ((string_eq.beq_iff action "create").0 h, new_job-IsJob p.own j e1)
  body-IsBody b false h e = target-IsBody b h e

-- If a request is accepted: its action is one of the six, and its profile has 1 to 64 characters and is one
-- of the snapshot's, if that has any. If and only if the action is `create` the body is a new job, and if
-- and only if it is `edit` the body is changes. A new job has a name of one line and 1 to 80 characters,
-- a schedule of 1 to 64 characters, a prompt of at most 8000 characters or a script that is a file name, a
-- script if it runs without an agent, a delivery that is known, a repeat of at most 1000, a skill
-- that is a file name of at most 64 characters, if any, and a workdir under `/your/data/`, if any.
-- Changes are at least one, and each keeps the rule of its field, the schedule its pattern. Every request
-- but a creation has a job id of 1 to 20 characters, that of a job of the profile, if the snapshot has any.
pub validated-IsSound :
    (snap : Option (List Scheduled)) (p : Payload) (op : Op)
    → validate_op snap p ≡ some op
    → IsSound snap op
unfolding validate_op action_of profile_of
validated-IsSound snap p op e =
    let (action, e1, k1) = bind-some (action_of p) _ op e in
    let (profile, e2, k2) = bind-some (profile_of snap p) _ op k1 in
    let (body, e3, k3) =
      bind-some (if action == "create" then creation_of p else target_of snap action profile p) _ op
        k2 in
    let (p1, s1) = passing-holds _ _ action e1 in
    let (p2, s2) = passing-holds _ _ profile e2 in
    subst (λ x. IsSound snap x) (some-inj k3)
      (
        subst (λ s. contains s actions ≡ true) s1 p1,
        subst (λ s. may_be (profile_names snap) s ≡ true) s2 (ground arith),
        subst (λ s. 1 ≤ char_count s) s2 (nonempty (bare p.profile) (ground arith)),
        subst (λ s. char_count s ≤ 64) s2 (ground arith),
        body-IsBody snap action profile p body _ refl e3,
      )
