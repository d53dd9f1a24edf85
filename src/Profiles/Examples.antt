-- ===== src/Profiles/Examples.antt =====
-- A profile whose fields are accepted.
use simple_lcp.Prelude.{◌≡◌, refl, some, [], ◌∷◌, contains}
use simple_lcp.Pipeline.Errors.{lstrip}
use simple_lcp.Pipeline.Normalize.{rstrip, is_space}
use simple_lcp.Intent.Chars.{all_chars}
use simple_lcp.Router.Names.{lower_text, strip}
use simple_lcp.Router.Sample.{hundredths}
use simple_lcp.Profiles.Fields.{
  label, absent, text, number, listed, Fields, Validated, is_name, validate_name, checked_label,
  keep_label, with_label, clean_labels, agent_of, routing_of, intents_of, gate_of, description_of,
  validate_profile_fields,
}
use simple_lcp.Profiles.Checked.{IsContract, validated-IsContract}

abbrev profile : Fields hundredths
profile = record {
  agent_profile = text "scout";
  routing = text "Static";
  intents = listed (label "planning" ∷ label "planning" ∷ []);
  intent_margin_gate = number 20;
  description = absent;
}

abbrev kept : Validated hundredths
kept = record {
  agent_profile = "scout";
  routing = "static";
  intents = "planning" ∷ [];
  intent_margin_gate = 20;
  description = "";
}

profile_accepted : validate_profile_fields hundredths profile ≡ some kept
unfolding validate_profile_fields agent_of routing_of intents_of gate_of description_of clean_labels
    with_label checked_label keep_label validate_name is_name all_chars contains lower_text strip
    rstrip lstrip is_space
profile_accepted = refl

validated-IsContract_example : IsContract hundredths kept
validated-IsContract_example =
    validated-IsContract hundredths profile kept (refl, refl) profile_accepted
