-- ===== src/Router/Blocks.antt =====
-- The blocks of src/api/router.py (`_apply_blocks`), against a plain filter of the chain.
use simple_lcp.Prelude.{
  String, ◌≡◌, refl, sym, ap, ◌∙◌, Bool, true, false, not, ◌&&◌, ◌||◌, List, [], ◌∷◌, select, any,
  arith, if◌then◌else◌,
}
use simple_lcp.Chain.Forward.{Step}
use simple_lcp.Router.Scores.{Floats, Facts}
use simple_lcp.Router.Rules.{Rule, Blocks, rule_target, is_block, block, block_each, apply_blocks}

select-select :
    {A : Type 0} (p q : A → Bool) (xs : List A)
    → select q (select p xs) ≡ select (λ x. p x && q x) xs
unfolding select
select-select p q [] = refl
select-select p q (x ∷ xs) = ground (arith, select-select p q xs)

pub select-cong :
    {A : Type 0} (p q : A → Bool) (xs : List A) → ((x : A) → p x ≡ q x) → select p xs ≡ select q xs
unfolding select
select-cong p q [] same = refl
select-cong p q (x ∷ xs) same = rw (same x, select-cong p q xs same) refl

select-all : {A : Type 0} (xs : List A) → select (λ _. true) xs ≡ xs
unfolding select
select-all [] = refl
select-all (x ∷ xs) = ap (λ ys. x ∷ ys) (select-all xs)

module _ (N : Floats) (facts : Facts N) (task profile : String) where
  -- a block rule of the scope that is about the step
  unfoldable pub is_blocked : List (Rule N) → Step → Bool
  is_blocked rules s =
      any (λ (r : Rule N). is_block N facts r task profile && rule_target N facts r s) rules

  candidates-block :
      (r : Rule N) (b : Blocks N facts)
      → (block N facts r b).candidates
        ≡ select (λ (s : Step). not (rule_target N facts r s)) b.candidates
  unfolding block
  candidates-block r b = ground arith

  candidates-turn :
      (t : Bool) (r : Rule N) (b : Blocks N facts)
      → (if t then block N facts r b else b).candidates
        ≡ select (λ (s : Step). not (t && rule_target N facts r s)) b.candidates
  candidates-turn true r b = candidates-block r b
  candidates-turn false r b = sym (select-all b.candidates)

  not-or : (p q : Bool) → (not p && not q) ≡ not (p || q)
  not-or p q = ground arith

  candidates-block_each :
      (rules : List (Rule N)) (b : Blocks N facts)
      → (block_each N facts rules task profile b).candidates
        ≡ select (λ (s : Step). not (is_blocked rules s)) b.candidates
  unfolding block_each is_blocked any
  candidates-block_each [] b = sym (select-all b.candidates)
  candidates-block_each (r ∷ rules) b =
      let t = is_block N facts r task profile in
      candidates-block_each rules (if t then block N facts r b else b)
      ∙ ap (select (λ (s : Step). not (is_blocked rules s))) (candidates-turn t r b)
      ∙ select-select _ _ b.candidates
      ∙ select-cong _ _ b.candidates
          (λ s. not-or (t && rule_target N facts r s) (is_blocked rules s))

  -- The candidates that the block rules leave are the steps of the chain, in its order, that no
  -- enabled block rule of the task and profile is about: the order of the rules does not matter.
  pub apply_blocks-filters :
      (rules : List (Rule N)) (chain : List Step)
      → (apply_blocks N facts rules chain task profile).candidates
        ≡ select (λ (s : Step). not (is_blocked rules s)) chain
  unfolding apply_blocks
  apply_blocks-filters rules chain = candidates-block_each rules _
