-- ===== src/Costs/Reported.antt =====
-- Which of the reported counts `read_cache_hit_tokens` of src/api/request_pipeline.py takes.
use simple_lcp.Prelude.{ℕ, String, ◌≡◌, refl, ◌∙◌, Option, none, some, List, [], ◌∷◌, ◌++◌, All}
use simple_lcp.Costs.Usage.{
  Members, object, get_member, read_path, as_count, candidates, first_count, read_cache_hit_tokens,
}

module _ (int : String → Option ℕ) (usage : Members) where
  -- The field reports no count.
  abbrev pub IsSilent : String → Type 0
  IsSilent f = as_count int (read_path usage f) ≡ none

  first_count-silent :
      (before fs : List String)
      → All IsSilent before
      → first_count int usage (before ++ fs) ≡ first_count int usage fs
  unfolding first_count
  first_count-silent [] fs s = refl
  first_count-silent (f ∷ before) fs (s, more) = rw s (first_count-silent before fs more)

  -- The first field among the configured one and the known ones that reports a count decides, also
  -- when it reports 0 and when fields after it report more.
  first_report_decides :
      (hit_field : Option String) (body : Members) (before after : List String) (f : String) (n : ℕ)
      → get_member "usage" body ≡ object usage
      → candidates hit_field ≡ before ++ f ∷ after
      → All IsSilent before
      → as_count int (read_path usage f) ≡ some n
      → read_cache_hit_tokens int hit_field (some body) ≡ n
  unfolding read_cache_hit_tokens first_count
  first_report_decides hit_field body before after f n found split silent reports =
      rw (found, split) (first_count-silent before (f ∷ after) silent ∙ rw reports refl)
