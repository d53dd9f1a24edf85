-- ===== src/Cron/Shapes.antt =====
-- The rules that an operation of src/api/work_cron.py keeps.
use simple_lcp.Prelude.{
  ℕ, ◌≤◌, String, ◌≡◌, ◌≢◌, refl, Bool, true, false, not, ◌&&◌, Option, none, some, List, string_eq,
  leb, contains, some-inj,
}
use simple_lcp.Profiles.Fields.{char_count}
use simple_lcp.Routes.Table.{starts_with}
use simple_lcp.Intent.Chars.{is_in}
use simple_lcp.Cron.Fields.{
  Scheduled, NewJob, Changes, Body, creates, targets, edits, Op, actions, is_schedule, is_file_name,
  passing, is_delivery,
}
use simple_lcp.Cron.Ops.{has_change, profile_names, job_ids, may_be}

-- It is a text that passes.
pub passing-holds : (b : Bool) (s t : String) → passing b s ≡ some t → (b ≡ true) × (s ≡ t)
passing-holds true s t e = (refl, some-inj e)
passing-holds false s t e = cc

-- The field is left out, or passes.
abbrev pub AllPass : (String → Bool) → Option String → Type 0
AllPass p none = Unit
AllPass p (some s) = p s ≡ true

abbrev pub IsSmall : Option ℕ → Type 0
IsSmall none = Unit
IsSmall (some n) = n ≤ 1000

-- A new job: one line of a name, a schedule that is neither empty nor too long, a prompt or a script, a
-- script if no agent runs it, and the other fields of their shapes.
pub record IsJob (j : NewJob) : Type 0 where
  pub named : (1 ≤ char_count j.name) × (char_count j.name ≤ 80) × (is_in "\n" j.name ≡ false)
  pub timed : (1 ≤ char_count j.schedule) × (char_count j.schedule ≤ 64)
  pub works : (AllPass is_file_name j.script) × (AllPass (λ s. leb (char_count s) 8000) j.prompt)
  pub does : (j.prompt ≡ none) → j.script ≢ none
  pub runs : (j.no_agent ≡ true) → j.script ≢ none
  pub delivers : is_delivery j.deliver ≡ true
  pub repeats : IsSmall j.repeat
  pub skilled : AllPass (λ s. leb (char_count s) 64 && is_file_name s) j.skill
  pub placed : AllPass (starts_with "/your/data/") j.workdir

-- Changes: at least one, and each of its shape, the schedule with its pattern.
pub record IsChange (c : Changes) : Type 0 where
  pub some_change : has_change c ≡ true
  pub named : AllPass (λ s. not (is_in "\n" s) && leb (char_count s) 80) c.name
  pub prompted : AllPass (λ s. leb (char_count s) 8000) c.prompt
  pub timed : AllPass is_schedule c.schedule
  pub runs : AllPass is_file_name c.script
  pub delivers : AllPass is_delivery c.deliver

-- The id of a job: 1 to 20 characters, and one of the profile's jobs, if the snapshot has any.
abbrev pub IsTarget : Option (List Scheduled) → String → String → Type 0
IsTarget snap profile id =
    (1 ≤ char_count id) × (char_count id ≤ 20) × (may_be (job_ids snap profile) id ≡ true)

-- The body fits the action.
abbrev pub IsBody : Option (List Scheduled) → String → String → Body → Type 0
IsBody snap action profile (creates j) = (action ≡ "create") × IsJob j
IsBody snap action profile (targets id) =
    (action ≢ "create") × (action ≢ "edit") × IsTarget snap profile id
IsBody snap action profile (edits id c) = (action ≡ "edit") × IsTarget snap profile id × IsChange c

abbrev pub IsSound : Option (List Scheduled) → Op → Type 0
IsSound snap op =
    (contains op.action actions ≡ true)
    × (may_be (profile_names snap) op.profile ≡ true)
    × (1 ≤ char_count op.profile)
    × (char_count op.profile ≤ 64)
    × IsBody snap op.action op.profile op.body
