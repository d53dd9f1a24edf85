-- ===== src/Router/Free.antt =====
-- The breaker's gate in `select_step` of src/api/router.py: `is_available` of
-- src/api/circuit_breaker.py asked of each step in turn.
use simple_lcp.Prelude.{
  String, ◌≡◌, refl, ap, ◌∙◌, Bool, List, [], ◌∷◌, string_eq, select, arith, if◌then◌else◌,
}
use simple_lcp.Breaker.Health.{Key, key_eq, Now}
use simple_lcp.Breaker.Table.{HealthTable}
use simple_lcp.Breaker.Entries.{level_up}
use simple_lcp.Breaker.Ops.{Breaker, peek, is_available}
use simple_lcp.Breaker.Effects.{entry-promote}
use simple_lcp.Chain.Forward.{Step, Config}
use simple_lcp.Chain.Prepare.{key_of}
use simple_lcp.Router.Scores.{Floats, Facts}
use simple_lcp.Router.Blocks.{select-cong}
use simple_lcp.Router.Select.{available_steps}

module _ (T : HealthTable) where
  -- An earlier question at the same time does not change the answer.
  asked_again :
      (b : Breaker T) (j k : Key) (n : Now)
      → (is_available T (is_available T b j n).1 k n).0 ≡ (is_available T b k n).0
  unfolding is_available peek
  asked_again b j k n = ground (
    arith,
    key_eq.beq_iff j k,
    string_eq.beq_iff j.provider "",
    entry-promote T b j k (peek T b j) (level_up (peek T b j).status) n.iso,
  )

module _ (N : Floats) (facts : Facts N) (T : HealthTable) (cfg : Config) (profile : String) where
  unfoldable pub is_free : Breaker T → Now → Step → Bool
  is_free b now s = (is_available T b (key_of cfg profile s) now).0

  -- The steps that pass the breaker are those that it would let pass if it were asked of that step
  -- alone: asking about the steps before changes no answer, though it may promote entries.
  pub available_steps-filters :
      (now : Now) (chain : List Step) (b : Breaker T)
      → (available_steps N facts T cfg profile now chain b).0 ≡ select (is_free b now) chain
  unfolding available_steps select is_free
  available_steps-filters now [] b = refl
  available_steps-filters now (s ∷ chain) b =
      let b' = (is_available T b (key_of cfg profile s) now).1 in
      let later : (available_steps N facts T cfg profile now chain b').0
          ≡ select (is_free b now) chain =
        available_steps-filters now chain b'
        ∙ select-cong _ _ chain
            (λ t. asked_again T b (key_of cfg profile s) (key_of cfg profile t) now) in
      ap (λ ys. if is_free b now s then s ∷ ys else ys) later
