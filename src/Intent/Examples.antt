-- ===== src/Intent/Examples.antt =====
-- A conversation in which a system prompt arrives late, as a user's message.
use mathlib.Core.List.{reverse}
use simple_lcp.Prelude.{
  ℕ, ◌<◌, String, ◌≡◌, refl, false, Option, none, some, List, [], ◌∷◌, count_if, ltb→lt, any,
  contains, map, sort_by, insert_sorted, if◌then◌else◌,
}
use simple_lcp.Pipeline.Errors.{lstrip}
use simple_lcp.Pipeline.Normalize.{is_space, rstrip}
use simple_lcp.Routes.Table.{starts_with, ends_with}
use simple_lcp.Router.Names.{lower_text, strip}
use simple_lcp.Router.Sample.{hundredths, hundredths-IsOrdered}
use simple_lcp.Intent.Said.{Said, plain}
use simple_lcp.Intent.Chars.{
  is_in, drop_while, erase, join_spaced, keep_if, squeeze, strip_of, words, found_in,
}
use simple_lcp.Intent.Said.{
  content_text, begins_with, after, is_client_context, message_has_tool_calls,
  has_tool_result_blocks, has_block, matches_tool_result_patterns,
}
use simple_lcp.Intent.Preamble.{
  is_continuation, is_preamble_like, preamble_head, preamble_tail, split_at_blank_line,
}
use simple_lcp.Intent.Tags.{context_tail, strip_chat_mentions, strip_mention}
use simple_lcp.Intent.Walk.{
  judge, judge_text, is_tool_result, continuation, preamble, passed_over, instruction,
}
use simple_lcp.Intent.Walk.{extract_intent_text, from_newest, walk, next_message, seen_user}
use simple_lcp.Intent.Described.{judged, newer, newest_instruction, is_preamble, described}
use simple_lcp.Intent.Newest.{intent-described}
use simple_lcp.Intent.Tokens.{user_text, chunk}
use simple_lcp.Intent.Classify.{
  Classifier, classify_task_detail, by_meaning, attempt_semantic, scored, result,
}
use simple_lcp.Intent.Semantic.{
  Embedder, SemanticClassifier, top_scores, scores_with, build_centroids, build_from, with_task,
  centroid_of, sum_vecs, add_vec, dot_from, cosine, all_scores, first_of,
}
use simple_lcp.Intent.Meaning.{classifier_of, IsMeant, semantic_task-IsMeant}
use simple_lcp.Intent.Judged.{
  asked, IsFounded, classified-IsFounded, newer_preamble_hides_instruction,
}

abbrev says : String → String → Said
says role s = record { role = role; content = plain s; has_call_id = false; has_tool_calls = false }

abbrev house_style : String
house_style =
    "You are Helper. Answer with care and keep the tone friendly. Always follow the house style, and mention the sources you know of when asked."

abbrev talk : List Said
talk =
    says "user" "Write the parser"
    ∷ says "assistant" "Done."
    ∷ says "user" house_style
    ∷ says "user" "ok"
    ∷ []

abbrev encode : String → Option ℕ
encode s = none

abbrev classifier : Classifier hundredths
classifier = record { min_score = 35; top_scores = λ s. some (("code_generation", 80) ∷ []) }

intent-described_example : extract_intent_text talk ≡ described (reverse talk)
intent-described_example = intent-described talk

classified-IsFounded_example :
    IsFounded hundredths encode
      (λ x. x)
      (some classifier)
      talk
      []
      (classify_task_detail hundredths encode (λ x. x) (some classifier) talk [])
classified-IsFounded_example =
    classified-IsFounded hundredths encode (λ x. x) (some classifier) talk []

verdicts_of_talk :
    judged (reverse talk)
    ≡ (continuation, says "user" "ok")
      ∷ (preamble, says "user" house_style)
      ∷ (passed_over, says "assistant" "Done.")
      ∷ (instruction "Write the parser", says "user" "Write the parser")
      ∷ []
unfolding is_in drop_while erase join_spaced keep_if squeeze strip_of words found_in content_text
    begins_with after is_client_context message_has_tool_calls has_tool_result_blocks has_block
    matches_tool_result_patterns is_continuation is_preamble_like preamble_head preamble_tail
    split_at_blank_line context_tail strip_chat_mentions strip_mention judge judge_text
    is_tool_result judged lstrip is_space rstrip starts_with ends_with lower_text strip any contains
verdicts_of_talk = refl

parser_is_newest : newest_instruction (judged (reverse talk)) ≡ some "Write the parser"
unfolding newest_instruction
parser_is_newest = rw verdicts_of_talk refl

one_preamble : 0 < count_if is_preamble (newer (judged (reverse talk)))
unfolding newer count_if
one_preamble = rw verdicts_of_talk (ltb→lt 0 1 refl)

newer_preamble_hides_instruction_example :
    ((extract_intent_text talk).0 ≡ "Write the parser")
    × ((classify_task_detail hundredths encode (λ x. x) (some classifier) talk []).task
        ≡ "agentic_multi_step")
    × ((classify_task_detail hundredths encode (λ x. x) (some classifier) talk []).path
        ≡ "preamble")
newer_preamble_hides_instruction_example =
    newer_preamble_hides_instruction hundredths encode (λ x. x) (some classifier) talk []
      "Write the parser" parser_is_newest one_preamble

-- A text is two numbers, by whether it speaks of writing.
unfoldable embedder : Embedder hundredths (λ x. x)
embedder texts =
    some (map (λ (s : String). if is_in "rite" s then 100 ∷ 0 ∷ [] else 0 ∷ 100 ∷ []) texts)

abbrev fresh : SemanticClassifier hundredths (λ x. x)
fresh = record { embed = some embedder; min_score = 35; centroids = none }

abbrev request : List Said
request = says "user" "Write the parser" ∷ []

path_is_semantic :
    (classify_task_detail hundredths encode
      (λ x. x)
      (some (classifier_of hundredths (λ x. x) fresh))
      request
      []).path
    ≡ "semantic"
unfolding classify_task_detail extract_intent_text from_newest walk next_message is_in drop_while
    erase join_spaced keep_if squeeze strip_of words found_in content_text begins_with after
    is_client_context message_has_tool_calls has_tool_result_blocks has_block
    matches_tool_result_patterns is_continuation is_preamble_like preamble_head preamble_tail
    split_at_blank_line context_tail strip_chat_mentions strip_mention judge judge_text
    is_tool_result judged lstrip is_space rstrip starts_with ends_with lower_text strip any contains
    classifier_of by_meaning attempt_semantic scored user_text chunk result embedder top_scores
    scores_with build_centroids build_from with_task centroid_of sum_vecs add_vec dot_from cosine
    all_scores first_of sort_by insert_sorted seen_user
path_is_semantic = refl

semantic_task-IsMeant_example :
    IsMeant hundredths
      (λ x. x)
      fresh
      (asked hundredths encode (λ x. x) request)
      (classify_task_detail hundredths encode
        (λ x. x)
        (some (classifier_of hundredths (λ x. x) fresh))
        request
        []).task
semantic_task-IsMeant_example =
    semantic_task-IsMeant hundredths (λ x. x) encode (λ x. x) fresh request [] hundredths-IsOrdered
      path_is_semantic
