-- ===== src/Cron/Examples.antt =====
-- A request for a new job, with a snapshot of one profile.
use simple_lcp.Prelude.{
  ◌≤◌, ◌≡◌, refl, false, Option, none, some, List, [], ◌∷◌, any, contains, leb→le,
}
use simple_lcp.Pipeline.Errors.{lstrip}
use simple_lcp.Pipeline.Normalize.{rstrip, is_space}
use simple_lcp.Profiles.Fields.{char_count}
use simple_lcp.Routes.Table.{starts_with}
use simple_lcp.Router.Names.{lower_text, strip}
use simple_lcp.Intent.Chars.{is_nil, is_in, all_chars}
use simple_lcp.Cron.Fields.{
  Scheduled, Given, Payload, NewJob, creates, Op, bare, is_schedule, is_file_name, is_delivery,
  name_of, schedule_of, is_work, deliver_of, repeat_of, skill_of, workdir_of,
}
use simple_lcp.Cron.Ops.{
  new_job, changes_of, profile_names, action_of, profile_of, creation_of, validate_op,
}
use simple_lcp.Cron.Shapes.{IsSound}
use simple_lcp.Cron.Sound.{validated-IsSound}
use simple_lcp.Cron.Unchecked.{at, create_takes_any_schedule}

abbrev snapshot : Option (List Scheduled)
snapshot = some (record { profile = "scout"; jobs = "j1" ∷ [] } ∷ [])

abbrev given : Given
given = record {
  name = some "nightly";
  schedule = some "30m";
  prompt = some "Sum up the day";
  script = none;
  deliver = none;
  skill = none;
  workdir = none;
  no_agent = none;
  repeat = none;
}

abbrev payload : Payload
payload = record {
  action = some "Create";
  profile = some "scout ";
  job_id = none;
  own = given;
  fields = none;
}

abbrev job : NewJob
job = record {
  name = "nightly";
  schedule = "30m";
  prompt = some "Sum up the day";
  script = none;
  no_agent = false;
  deliver = "origin";
  repeat = none;
  skill = none;
  workdir = none;
}

abbrev op : Op
op = record { action = "create"; profile = "scout"; body = creates job }

payload_accepted : validate_op snapshot payload ≡ some op
unfolding validate_op action_of profile_of creation_of new_job bare all_chars is_file_name
    is_delivery name_of schedule_of is_work deliver_of repeat_of skill_of workdir_of profile_names
    any contains lower_text strip lstrip rstrip is_space is_in starts_with
payload_accepted = refl

validated-IsSound_example : IsSound snapshot op
validated-IsSound_example = validated-IsSound snapshot payload op payload_accepted

odd_is_text : is_nil (strip "$(now)") ≡ false
unfolding strip lstrip rstrip is_space
odd_is_text = refl

odd_is_short : char_count (strip "$(now)") ≤ 64
unfolding strip lstrip rstrip is_space
odd_is_short = leb→le 6 64 refl

odd_is_no_schedule : is_schedule (strip "$(now)") ≡ false
unfolding is_schedule all_chars strip lstrip rstrip is_space
odd_is_no_schedule = refl

says_create : lower_text (bare (some "Create")) ≡ "create"
unfolding bare lower_text strip lstrip rstrip is_space
says_create = refl

create_takes_any_schedule_example :
    ((j : NewJob) × (validate_op snapshot (record payload { own = at "$(now)" given })
        ≡ some (record op { body = creates (record j { schedule = strip "$(now)" }) })))
    × (changes_of (at "$(now)" given) ≡ none)
create_takes_any_schedule_example =
    create_takes_any_schedule snapshot payload op given "$(now)" odd_is_text odd_is_short
      odd_is_no_schedule says_create payload_accepted
