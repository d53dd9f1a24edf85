-- ===== src/Intent/Stripped.antt =====
-- The loop of `_strip_complete_pairs` of src/api/message_norm.py ends.
use simple_lcp.Prelude.{
  ℕ, zero, suc, ◌≤◌, ◌<◌, String, ◌≡◌, ◌⊎◌, inl, inr, refl, ap, ◌∙◌, Option, ◌==◌, string_eq,
  Bool-cases, Option-cases, arith,
}
use simple_lcp.Profiles.Fields.{char_count}
use simple_lcp.Intent.Chars.{erase}
use simple_lcp.Intent.Patterns.{more_than_one, sub_all, inner_tag_pair, self_closing_tag}
use simple_lcp.Intent.Tags.{strip_round, strip_rounds, strip_complete_pairs}

-- A text that stayed as it is, or became shorter.
abbrev IsCut : String → String → Type 0
IsCut s t = (t ≡ s) ⊎ (char_count t < char_count s)

erase-le : (m : String → Option ℕ) (k : ℕ) (s : String) → char_count (erase m k s) ≤ char_count s
unfolding erase
erase-le m k String.[] = omega arith
erase-le m (suc k) (String.◌∷◌ c s) = omega (arith, erase-le m k s)
erase-le m zero (String.◌∷◌ c s) = elim (Option-cases (m (String.◌∷◌ c s))) [
  | inl e ↦ rw (erase, e) (omega (arith, erase-le m zero s))
  | inr (k, e) ↦ rw (erase, e) (omega (arith, erase-le m k s))
]

erase-IsCut : (m : String → Option ℕ) (s : String) → IsCut s (erase m 0 s)
unfolding erase
erase-IsCut m String.[] = inl refl
erase-IsCut m (String.◌∷◌ c s) = elim (Option-cases (m (String.◌∷◌ c s))) [
  | inl e ↦
      rw (erase, e)
        (elim (erase-IsCut m s) [
          | inl same ↦ inl (ap (λ t. String.◌∷◌ c t) same)
          | inr less ↦ inr (omega arith)
        ])
  | inr (k, e) ↦ rw (erase, e) (inr (omega (arith, erase-le m k s)))
]

then-IsCut : (s t u : String) → IsCut s t → IsCut t u → IsCut s u
then-IsCut s t u (inl e) (inl f) = inl (f ∙ e)
then-IsCut s t u (inl e) (inr f) = inr (omega (arith, ap char_count e))
then-IsCut s t u (inr e) (inl f) = inr (omega (arith, ap char_count f))
then-IsCut s t u (inr e) (inr f) = inr (omega arith)

round-IsCut : (s : String) → IsCut s (strip_round s)
unfolding strip_round sub_all
round-IsCut s =
    then-IsCut s _ _ (erase-IsCut (more_than_one inner_tag_pair) s)
      (erase-IsCut (more_than_one self_closing_tag) (erase (more_than_one inner_tag_pair) 0 s))

rounds_end :
    (f : ℕ) (s : String) → char_count s < f → strip_round (strip_rounds f s) ≡ strip_rounds f s
unfolding strip_rounds
rounds_end zero s h = absurd (omega arith)
rounds_end (suc f) s h = elim (Bool-cases (strip_round s == s)) [
  | inl e ↦ rw (strip_rounds, e) ((string_eq.beq_iff (strip_round s) s).0 e)
  | inr e ↦
      rw (strip_rounds, e)
        (elim (round-IsCut s) [
          | inl same ↦ ground (arith, string_eq.beq_iff (strip_round s) s)
          | inr less ↦ rounds_end f (strip_round s) (omega arith)
        ])
]

-- The fuel is enough: one more round would change nothing.
strip_complete_pairs_ends :
    (raw : String) → strip_round (strip_complete_pairs raw) ≡ strip_complete_pairs raw
unfolding strip_complete_pairs
strip_complete_pairs_ends raw = rounds_end (suc (char_count raw)) raw (omega arith)
