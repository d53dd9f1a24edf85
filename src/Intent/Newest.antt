-- ===== src/Intent/Newest.antt =====
-- The loop of `_extract_intent_text` of src/api/message_norm.py answers what is described without it.
use mathlib.Core.List.{reverse}
use simple_lcp.Prelude.{
  ℕ, suc, ◌+◌, String, ◌≡◌, refl, sym, ap, ◌∙◌, Bool, true, false, ◌||◌, Option, some, List, [],
  ◌∷◌, ltb, arith, count_if, if◌then◌else◌,
}
use simple_lcp.Intent.Said.{Said, content_text}
use simple_lcp.Intent.Walk.{
  Meta, Verdict, passed_over, tool_echo, context, preamble, continuation, instruction, judge,
  Walked, seen_user, with_verdict, nothing_genuine, next_message, walk, from_newest,
  extract_intent_text,
}
use simple_lcp.Intent.Described.{
  Judged, judged, newest_instruction, newer, is_preamble, is_own, texts, oldest, counted, answered,
  described_from, blank, described,
}

add_suc : (a n : ℕ) → suc a + n ≡ a + suc n
add_suc a n = omega arith

or_false : (b : Bool) → (b || false) ≡ b
or_false true = refl
or_false false = refl

or_true : (b : Bool) → (b || true) ≡ true
or_true true = refl
or_true false = refl

positive : (b : Bool) (n : ℕ) → (true || ltb 0 n) ≡ (b || ltb 0 (suc n))
positive b n = ground arith

oldest-if :
    (b : Bool) (s t : String) (ts : List String)
    → oldest s (if b then t ∷ ts else ts) ≡ oldest (if b then t else s) ts
unfolding oldest
oldest-if true s t ts = refl
oldest-if false s t ts = refl

meta_cong :
    (s : String) (a b c d i j k l : ℕ) (p q : Bool)
    → a ≡ i
    → b ≡ j
    → c ≡ k
    → d ≡ l
    → p ≡ q
    → ◌≡◌ {A = Meta}
        (record {
          source = s;
          skipped_tool = a;
          skipped_cont = b;
          skipped_context = c;
          skipped_preamble = d;
          preamble = p;
        })
        (record {
          source = s;
          skipped_tool = i;
          skipped_cont = j;
          skipped_context = k;
          skipped_preamble = l;
          preamble = q;
        })
meta_cong s a b c d i j k l p q e f g h o = rw (e, f, g, h, o) refl

answered_cong :
    (o : Option String) (n n' : Meta) (f f' l l' : String)
    → n ≡ n'
    → f ≡ f'
    → l ≡ l'
    → answered o n f l ≡ answered o n' f' l'
answered_cong o n n' f f' l l' a b c = rw (a, b, c) refl

step :
    (v : Verdict) (m : Said) (es : List Judged) (w : Walked) (onward : Walked → String × Meta)
    → ((u : Walked) → onward u ≡ described_from es u)
    → next_message v
        (content_text m.content)
        (record w { first_user = seen_user m w.first_user })
        onward
      ≡ described_from ((v, m) ∷ es) w
unfolding next_message with_verdict described_from newest_instruction newer seen_user counted texts
    count_if answered oldest
step (instruction t) m es w onward h =
    ap (λ (n : Meta). (t, record n { source = "last_instruction" }))
      (meta_cong w.meta.source _ _ _ _ _ _ _ _ _ _ (omega arith) (omega arith) (omega arith)
        (omega arith) (sym (or_false w.meta.preamble)))
step passed_over m es w onward h =
    h _
    ∙ answered_cong (newest_instruction es) _ _ _ _ _ _ refl
        (sym (oldest-if (is_own m) w.first_user _ _)) refl
step tool_echo m es w onward h =
    h _
    ∙ answered_cong (newest_instruction es) _ _ _ _ _ _
        (meta_cong w.meta.source _ _ _ _ _ _ _ _ _ _ (add_suc w.meta.skipped_tool _) refl refl refl
          refl)
        (sym (oldest-if (is_own m) w.first_user _ _)) refl
step context m es w onward h =
    h _
    ∙ answered_cong (newest_instruction es) _ _ _ _ _ _
        (meta_cong w.meta.source _ _ _ _ _ _ _ _ _ _ refl refl (add_suc w.meta.skipped_context _)
          refl refl)
        (sym (oldest-if (is_own m) w.first_user _ _)) refl
step preamble m es w onward h =
    h _
    ∙ answered_cong (newest_instruction es) _ _ _ _ _ _
        (meta_cong w.meta.source _ _ _ _ _ _ _ _ _ _ refl refl refl
          (add_suc w.meta.skipped_preamble _)
          (positive w.meta.preamble (count_if is_preamble (newer es))))
        (sym (oldest-if (is_own m) w.first_user _ _)) refl
step continuation m es w onward h =
    h _
    ∙ answered_cong (newest_instruction es) _ _ _ _ _ _
        (meta_cong w.meta.source _ _ _ _ _ _ _ _ _ _ refl (add_suc w.meta.skipped_cont _) refl refl
          refl)
        (sym (oldest-if (is_own m) w.first_user _ _)) refl

walk-described : (ms : List Said) (w : Walked) → walk ms w ≡ described_from (judged ms) w
unfolding walk described_from counted judged newest_instruction newer texts oldest answered count_if
walk-described [] w =
    ap (λ (n : Meta). nothing_genuine (record w { meta = n }))
      (meta_cong w.meta.source _ _ _ _ _ _ _ _ _ _ (omega arith) (omega arith) (omega arith)
        (omega arith) (sym (or_false w.meta.preamble)))
walk-described (m ∷ older) w =
    step (judge m older) m (judged older) w (walk older) (walk-described older)

newest-described : (ms : List Said) → from_newest ms ≡ described ms
unfolding from_newest described
newest-described [] = refl
newest-described (m ∷ older) = walk-described (m ∷ older) blank

-- For every conversation, the loop answers the newest message that is judged an instruction, or its tail;
-- if there is none, the oldest preamble, and if there is no preamble either, the oldest words of the
-- user. Its counts are the numbers of messages, among those newer than the instruction, that it
-- skipped for each reason, and `preamble` says whether one of these is a preamble.
pub intent-described :
    (messages : List Said) → extract_intent_text messages ≡ described (reverse messages)
unfolding extract_intent_text
intent-described messages = newest-described (reverse messages)

answered-told :
    (o : Option String) (t : String) (n : Meta) (first last : String)
    → o ≡ some t
    → answered o n first last ≡ (t, record n { source = "last_instruction" })
unfolding answered
answered-told o t n first last e = rw e refl

-- what the answer is when there is an instruction
pub described-told :
    (ms : List Said) (t : String)
    → newest_instruction (judged ms) ≡ some t
    → ((described ms).0 ≡ t)
      × ((described ms).1.preamble ≡ ltb 0 (count_if is_preamble (newer (judged ms))))
unfolding described judged newest_instruction
described-told [] t e = cc
described-told (m ∷ older) t e =
    let a = answered-told _ t _ _ _ e in (ap (λ x. x.0) a, ap (λ x. x.1.preamble) a)
