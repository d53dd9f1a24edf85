-- ===== src/Profiles/Checked.antt =====
-- What the fields that `validate_profile_fields` of src/api/config.py accepts are like.
use Prim.Native.Char.{code}
use simple_lcp.Prelude.{
  bind-some, some-inj, zero, ℕ, suc, ◌≤◌, String, ◌≡◌, ◌≢◌, refl, sym, subst, ◌⊎◌, inl, inr, Bool,
  true, false, not, ◌&&◌, ◌||◌, none, some, List, [], ◌∷◌, ◌==◌, string_eq, ltb, length, contains,
  arith, if◌then◌else◌,
}
use simple_lcp.Pipeline.Errors.{take_chars}
use simple_lcp.Intent.Chars.{all_chars}
use simple_lcp.Router.Names.{strip, lower_text}
use simple_lcp.Router.Scores.{Floats}
use simple_lcp.Profiles.Fields.{
  Item, Value, absent, null, text, number, flag, listed, mapping, Fields, Validated, char_count,
  routing_modes, name_char, is_name, validate_name, clean_labels, agent_of, routing_of, intents_of,
  gate_of, description_of, validate_profile_fields,
}
use simple_lcp.Profiles.Labels.{IsLabels, let_through, clean_labels-IsLabels}

take_chars-short : (n : ℕ) (s : String) → char_count (take_chars n s) ≤ n
unfolding take_chars
take_chars-short zero s = omega arith
take_chars-short (suc n) String.[] = omega arith
take_chars-short (suc n) (String.◌∷◌ c s) = omega (arith, take_chars-short n s)

-- A letter, a digit, a dot, an underscore or a dash, by its code.
abbrev IsSafeCode : ℕ → Type 0
IsSafeCode c =
    ((65 ≤ c) × (c ≤ 90))
    ⊎ (((97 ≤ c) × (c ≤ 122)) ⊎ (((48 ≤ c) × (c ≤ 57)) ⊎ ((c ≡ 46) ⊎ ((c ≡ 95) ⊎ (c ≡ 45)))))

abbrev IsSafe : String → Type 0
IsSafe String.[] = Unit
IsSafe (String.◌∷◌ c s) = IsSafeCode (code c) × IsSafe s

char-IsSafe : (n : ℕ) → name_char n ≡ true → IsSafeCode n
char-IsSafe n h = ground (arith, h)

chars-IsSafe : (s : String) → all_chars (λ c. name_char c) s ≡ true → IsSafe s
unfolding all_chars
chars-IsSafe String.[] h = tt
chars-IsSafe (String.◌∷◌ c s) h =
    (char-IsSafe (code c) (ground (arith, h)), chars-IsSafe s (ground (arith, h)))

name-IsSafe : (s : String) → is_name s ≡ true → IsSafe s × (1 ≤ char_count s) × (char_count s ≤ 64)
unfolding is_name
name-IsSafe s h = (chars-IsSafe s (ground (arith, h)), ground (arith, h), ground (arith, h))

module _ (N : Floats) where
  -- Empty, or a single path segment: 1 to 64 safe characters, and neither `.` nor `..`.
  abbrev IsAgent : String → Type 0
  IsAgent s =
      (s ≡ "") ⊎ (IsSafe s × (1 ≤ char_count s) × (char_count s ≤ 64) × (s ≢ ".") × (s ≢ ".."))

  abbrev IsUnit : N.F → Type 0
  IsUnit x = (N.le (N.hundredths 0) x ≡ true) × (N.le x (N.hundredths 100) ≡ true)

  named-IsAgent : (s t : String) → validate_name s ≡ some t → IsAgent t
  unfolding validate_name
  named-IsAgent s t h =
      let bare = strip s in
      let (ok, same) = let_through (not (is_name bare) || (bare == "." || bare == "..")) bare t h in
      let (safe, some_char, short) = name-IsSafe bare (ground arith) in
      subst (λ x. IsAgent x) same
        (inr (
          safe,
          some_char,
          short,
          λ e. ground (arith, string_eq.beq_iff bare "."),
          λ e. ground (arith, string_eq.beq_iff bare ".."),
        ))

  empty-IsAgent : (t : String) → some "" ≡ some t → IsAgent t
  empty-IsAgent t h = inl (sym (some-inj h))

  either-IsAgent :
      (b : Bool) (s t : String) → (if b then some "" else validate_name s) ≡ some t → IsAgent t
  either-IsAgent true s t h = empty-IsAgent t h
  either-IsAgent false s t h = named-IsAgent s t h

  agent_of-IsAgent : (v : Value N) (t : String) → agent_of N v ≡ some t → IsAgent t
  unfolding agent_of
  agent_of-IsAgent absent t h = empty-IsAgent t h
  agent_of-IsAgent null t h = empty-IsAgent t h
  agent_of-IsAgent (text s) t h = either-IsAgent (strip s == "") (strip s) t h
  agent_of-IsAgent (number x) t h = cc
  agent_of-IsAgent (flag b) t h = cc
  agent_of-IsAgent (listed items) t h = cc
  agent_of-IsAgent (mapping e) t h = cc

  abbrev IsMode : String → Type 0
  IsMode r = contains r routing_modes ≡ true

  empty-IsMode : (r : String) → some "" ≡ some r → IsMode r
  unfolding contains
  empty-IsMode r h = subst (λ x. contains x routing_modes ≡ true) (some-inj h) refl

  on-IsMode : (b : Bool) (r : String) → (if b then some "" else none) ≡ some r → IsMode r
  on-IsMode true r h = empty-IsMode r h
  on-IsMode false r h = cc

  allowed-IsMode :
      (s r : String) (b : Bool)
      → contains s routing_modes ≡ b
      → (if b then some s else none) ≡ some r
      → IsMode r
  allowed-IsMode s r true e h = subst (λ x. contains x routing_modes ≡ true) (some-inj h) e
  allowed-IsMode s r false e h = cc

  routing_of-IsMode : (v : Value N) (r : String) → routing_of N v ≡ some r → IsMode r
  unfolding routing_of
  routing_of-IsMode absent r h = empty-IsMode r h
  routing_of-IsMode null r h = empty-IsMode r h
  routing_of-IsMode (text s) r h = allowed-IsMode (lower_text (strip s)) r _ refl h
  routing_of-IsMode (number x) r h =
      on-IsMode (N.le x (N.hundredths 0) && N.le (N.hundredths 0) x) r h
  routing_of-IsMode (flag true) r h = cc
  routing_of-IsMode (flag false) r h = empty-IsMode r h
  routing_of-IsMode (listed []) r h = empty-IsMode r h
  routing_of-IsMode (listed (i ∷ items)) r h = cc
  routing_of-IsMode (mapping e) r h = on-IsMode e r h

  empty-IsLabels : (ss : List String) → some [] ≡ some ss → IsLabels ss × (length ss ≤ 32)
  empty-IsLabels ss h =
      subst (λ x. IsLabels x × (length x ≤ 32)) (some-inj h) ((tt, tt), omega arith)

  few-IsLabels :
      (items : List Item) (ss : List String) (b : Bool)
      → ltb 32 (length items) ≡ b
      → (if b then none else clean_labels items []) ≡ some ss
      → IsLabels ss × (length ss ≤ 32)
  few-IsLabels items ss true e h = cc
  few-IsLabels items ss false e h =
      let (labels, short) = clean_labels-IsLabels items [] ss (tt, tt) h in (labels, ground arith)

  intents_of-IsLabels :
      (v : Value N) (ss : List String) → intents_of N v ≡ some ss → IsLabels ss × (length ss ≤ 32)
  unfolding intents_of
  intents_of-IsLabels absent ss h = empty-IsLabels ss h
  intents_of-IsLabels null ss h = empty-IsLabels ss h
  intents_of-IsLabels (listed items) ss h = few-IsLabels items ss _ refl h
  intents_of-IsLabels (text s) ss h = cc
  intents_of-IsLabels (number x) ss h = cc
  intents_of-IsLabels (flag b) ss h = cc
  intents_of-IsLabels (mapping e) ss h = cc

  zero-IsUnit : (x : N.F) → IsUnit (N.hundredths 0) → some (N.hundredths 0) ≡ some x → IsUnit x
  zero-IsUnit x u h = subst (λ y. IsUnit y) (some-inj h) u

  ranged-IsUnit :
      (x y : N.F) (b c : Bool)
      → N.le (N.hundredths 0) x ≡ b
      → N.le x (N.hundredths 100) ≡ c
      → (if b && c then some x else none) ≡ some y
      → IsUnit y
  ranged-IsUnit x y true true p q h = subst (λ z. IsUnit z) (some-inj h) (p, q)
  ranged-IsUnit x y true false p q h = cc
  ranged-IsUnit x y false c p q h = cc

  gate_of-IsUnit :
      (v : Value N) (x : N.F) → IsUnit (N.hundredths 0) → gate_of N v ≡ some x → IsUnit x
  unfolding gate_of
  gate_of-IsUnit absent x u h = zero-IsUnit x u h
  gate_of-IsUnit null x u h = zero-IsUnit x u h
  gate_of-IsUnit (number y) x u h = ranged-IsUnit y x _ _ refl refl h
  gate_of-IsUnit (text s) x u h = cc
  gate_of-IsUnit (flag b) x u h = cc
  gate_of-IsUnit (listed items) x u h = cc
  gate_of-IsUnit (mapping e) x u h = cc

  empty_description : (t : String) → some "" ≡ some t → char_count t ≤ 120
  empty_description t h = subst (λ s. char_count s ≤ 120) (some-inj h) (omega arith)

  description_of-short :
      (v : Value N) (t : String) → description_of N v ≡ some t → char_count t ≤ 120
  unfolding description_of
  description_of-short absent t h = empty_description t h
  description_of-short null t h = empty_description t h
  description_of-short (text s) t h =
      subst (λ x. char_count x ≤ 120) (some-inj h) (take_chars-short 120 (strip s))
  description_of-short (number x) t h = cc
  description_of-short (flag b) t h = cc
  description_of-short (listed items) t h = cc
  description_of-short (mapping e) t h = cc

  -- The contract of a profile's fields: the agent profile is empty or a single path segment of 1 to 64
  -- ASCII letters, digits, dots, underscores and dashes, other than `.` and `..`, the routing is one of
  -- the modes, there are at most 32 intents, all distinct, not empty and of at most 64 characters,
  -- the gate is a number from 0 to 1, and the description has at most 120 characters.
  pub record IsContract (v : Validated N) : Type 0 where
    pub agent : IsAgent v.agent_profile
    pub routed : IsMode v.routing
    pub labels : IsLabels v.intents
    pub few : length v.intents ≤ 32
    pub ranged : IsUnit v.intent_margin_gate
    pub short : char_count v.description ≤ 120

  -- When 0 is a number from 0 to 1: whatever the fields of a profile hold, if they are accepted, what
  -- they are normalised to keeps the contract. The agent profile is empty or 1 to 64 ASCII letters,
  -- digits, dots, underscores and dashes, other than `.` and `..`; the routing is one of the three
  -- modes; there are at most 32 intents, all distinct, not empty and of at most 64 characters; the
  -- margin gate is a number from 0 to 1; and the description has at most 120 characters.
  pub validated-IsContract :
      (f : Fields N) (v : Validated N)
      → IsUnit (N.hundredths 0)
      → validate_profile_fields N f ≡ some v
      → IsContract v
  unfolding validate_profile_fields
  validated-IsContract f v u h =
      let (agent, ea, ha) = bind-some (agent_of N f.agent_profile) _ v h in
      let (routing, er, hr) = bind-some (routing_of N f.routing) _ v ha in
      let (intents, ei, hi) = bind-some (intents_of N f.intents) _ v hr in
      let (gate, eg, hg) = bind-some (gate_of N f.intent_margin_gate) _ v hi in
      let (desc, ed, hd) = bind-some (description_of N f.description) _ v hg in
      let (labels, few) = intents_of-IsLabels f.intents intents ei in
      subst (λ x. IsContract x) (some-inj hd)
        (record {
          agent = agent_of-IsAgent f.agent_profile agent ea;
          routed = routing_of-IsMode f.routing routing er;
          labels = labels;
          few = few;
          ranged = gate_of-IsUnit f.intent_margin_gate gate u eg;
          short = description_of-short f.description desc ed;
        })
