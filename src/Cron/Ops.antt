-- ===== src/Cron/Ops.antt =====
-- `_validate_op` of src/api/work_cron.py: the checks of all fields together. The snapshot that `cron_view`
-- reads is an argument.
use simple_lcp.Prelude.{
  String, Bool, true, false, not, ◌&&◌, ◌||◌, Option, none, some, List, [], ◌∷◌, map, ◌==◌,
  string_eq, leb, contains, ◌>>=◌, if◌then◌else◌,
}
use simple_lcp.Profiles.Fields.{char_count}
use simple_lcp.Router.Names.{lower_text}
use simple_lcp.Intent.Chars.{is_nil, is_in}
use simple_lcp.Cron.Fields.{
  Scheduled, Given, Payload, NewJob, Changes, Body, creates, targets, edits, Op, actions, bare,
  or_none, is_schedule, is_file_name, passing, is_delivery, name_of, schedule_of, is_work, truthy,
  deliver_of, repeat_of, skill_of, workdir_of,
}

unfoldable pub new_job : Given → Option NewJob
new_job g = do
  name ← name_of (bare g.name)
  schedule ← schedule_of (bare g.schedule)
  work ← passing (is_work (bare g.prompt) (bare g.script) (truthy g.no_agent)) ""
  deliver ← deliver_of (bare g.deliver)
  repeat ← repeat_of g.repeat
  skill ← skill_of (bare g.skill)
  workdir ← workdir_of (bare g.workdir)
  some (record {
    name = name;
    schedule = schedule;
    prompt = or_none (bare g.prompt);
    script = or_none (bare g.script);
    no_agent = truthy g.no_agent;
    deliver = deliver;
    repeat = repeat;
    skill = or_none skill;
    workdir = or_none workdir;
  })

-- a field of an edit: it is left out if it is empty, and checked otherwise
unfoldable pub changed : (String → Bool) → String → Option (Option String)
changed passes s = if is_nil s then some none else if passes s then some (some s) else none

abbrev is_some {ℓ} : {A : Type ℓ} → Option A → Bool
is_some none = false
is_some (some a) = true

unfoldable pub has_change : Changes → Bool
has_change c =
    is_some c.name
    || is_some c.schedule
    || is_some c.prompt
    || is_some c.script
    || is_some c.deliver
    || is_some c.no_agent

unfoldable pub changes_of : Given → Option Changes
changes_of g = do
  name ← changed (λ s. not (is_in "\n" s) && leb (char_count s) 80) (bare g.name)
  schedule ← changed is_schedule (bare g.schedule)
  prompt ← changed (λ s. leb (char_count s) 8000) (bare g.prompt)
  script ← changed is_file_name (bare g.script)
  deliver ← changed is_delivery (bare g.deliver)
  let c : Changes = record {
    name = name;
    schedule = schedule;
    prompt = prompt;
    script = script;
    deliver = deliver;
    no_agent = g.no_agent;
  } in
      if has_change c then some c else none

unfoldable pub profile_names : Option (List Scheduled) → List String
profile_names none = []
profile_names (some ps) = map (λ (p : Scheduled). p.profile) ps

-- the jobs of the first profile with the name
unfoldable pub jobs_of : String → List Scheduled → List String
jobs_of profile [] = []
jobs_of profile (p ∷ ps) =
    let rest = jobs_of profile ps in if p.profile == profile then p.jobs else rest

unfoldable pub job_ids : Option (List Scheduled) → String → List String
job_ids none profile = []
job_ids (some ps) profile = jobs_of profile ps

-- `if known and x not in known`, the other way around
abbrev pub may_be : List String → String → Bool
may_be [] s = true
may_be (k ∷ ks) s = contains s (k ∷ ks)

unfoldable pub action_of : Payload → Option String
action_of p = let a = lower_text (bare p.action) in passing (contains a actions) a

unfoldable pub profile_of : Option (List Scheduled) → Payload → Option String
profile_of snap p =
    let s = bare p.profile in
    passing (not (is_nil s) && leb (char_count s) 64 && may_be (profile_names snap) s) s

unfoldable pub job_of : Option (List Scheduled) → String → Payload → Option String
job_of snap profile p =
    let s = bare p.job_id in
    passing (not (is_nil s) && leb (char_count s) 20 && may_be (job_ids snap profile) s) s

abbrev fields_or_own : Payload → Option Given → Given
fields_or_own p none = p.own
fields_or_own p (some g) = g

unfoldable pub edit_of : String → Payload → Option Body
edit_of job p = do c ← changes_of (fields_or_own p p.fields); some (edits job c)

unfoldable pub target_of : Option (List Scheduled) → String → String → Payload → Option Body
target_of snap action profile p = do
  job ← job_of snap profile p
  if action == "edit" then edit_of job p else some (targets job)

unfoldable pub creation_of : Payload → Option Body
creation_of p = do job ← new_job p.own; some (creates job)

unfoldable pub validate_op : Option (List Scheduled) → Payload → Option Op
validate_op snap p = do
  action ← action_of p
  profile ← profile_of snap p
  body ← if action == "create" then creation_of p else target_of snap action profile p
  some (record { action = action; profile = profile; body = body })
