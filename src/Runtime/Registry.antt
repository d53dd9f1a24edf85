-- ===== src/Runtime/Registry.antt =====
-- `Runtime.register` of src/api/runtime.py; `none` is a ValueError.
use simple_lcp.Prelude.{
  String, ◌≡◌, ◌≢◌, refl, ap, subst, ◌∙◌, Bool, true, false, ◌||◌, Option, none, some, List, [],
  ◌∷◌, ◌==◌, string_eq, arith, any, contains, lookup, insert, lookup-insert, Bool-cases, inl, inr,
  if◌then◌else◌,
}
use simple_lcp.Runtime.Boot.{Component, root_keys}

pub record Registry : Type 0 where
  pub components : List (String × Component)
  pub owners : List (String × String)

abbrev is_known {ℓ} : {A : Type ℓ} → Option A → Bool
is_known none = false
is_known (some a) = true

-- the key is reserved, or provided already
unfoldable pub is_taken : Registry → String → Bool
is_taken r k = contains k root_keys || is_known (lookup k r.owners)

-- for key in comp.provides: self._provides[key] = comp.name
unfoldable pub claim : String → List String → List (String × String) → List (String × String)
claim name [] m = m
claim name (k ∷ ks) m = claim name ks (insert k name m)

-- the name is compared with the names only, the keys with the keys that are provided
unfoldable pub register : Registry → Component → Option Registry
register r c =
    if is_known (lookup c.name r.components)
      || contains c.name root_keys
      || any (is_taken r) c.provides
    then none
    else some (record {
      components = insert c.name c r.components;
      owners = claim c.name c.provides (insert c.name c.name r.owners);
    })

lookup-claim :
    (name k : String) (ks : List String) (m : List (String × String))
    → contains k ks ≡ false
    → lookup k (claim name ks m) ≡ lookup k m
unfolding claim contains
lookup-claim name k [] m h = refl
lookup-claim name k (j ∷ ks) m h =
    lookup-claim name k ks (insert j name m) (ground (arith, h))
    ∙ ground (arith, h, string_eq.beq_iff j k, lookup-insert j k name m)

not_claimed :
    (r : Registry) (k : String) (ks : List String)
    → is_taken r k ≡ true
    → any (is_taken r) ks ≡ false
    → contains k ks ≡ false
unfolding any contains
not_claimed r k [] t h = refl
not_claimed r k (j ∷ ks) t h = elim (Bool-cases (j == k)) [
  | inl e ↦
      let same : j ≡ k = (string_eq.beq_iff j k).0 e in
      absurd (ground (arith, ap (is_taken r) same, t, h))
  | inr e ↦ rw e (not_claimed r k ks t (ground (arith, h)))
]

registered_owners :
    (r : Registry) (c : Component) {r' : Registry}
    → register r c ≡ some r'
    → (any (is_taken r) c.provides ≡ false)
      × (r'.owners ≡ claim c.name c.provides (insert c.name c.name r.owners))
unfolding register
registered_owners r c h = ground arith

-- A component that is registered takes over no reserved key, and no key that another component
-- provides, unless that key is its own name.
register_takes_no_key :
    (r : Registry) (c : Component) (k : String) {r' : Registry}
    → register r c ≡ some r'
    → is_taken r k ≡ true
    → k ≢ c.name
    → lookup k r'.owners ≡ lookup k r.owners
register_takes_no_key r c k h t n =
    let (untaken, owners) = registered_owners r c h in
    ap (lookup k) owners
    ∙ lookup-claim c.name k c.provides (insert c.name c.name r.owners)
        (not_claimed r k c.provides t untaken)
    ∙ ground (arith, string_eq.beq_iff c.name k, lookup-insert c.name k c.name r.owners)

claimed_again :
    (name k : String) (ks : List String) (m : List (String × String))
    → lookup k m ≡ some name
    → lookup k (claim name ks m) ≡ some name
unfolding claim
claimed_again name k [] m h = h
claimed_again name k (j ∷ ks) m h =
    claimed_again name k ks (insert j name m)
      (ground (arith, h, string_eq.beq_iff j k, lookup-insert j k name m))

lookup-claimed :
    (name k : String) (ks : List String) (m : List (String × String))
    → contains k ks ≡ true
    → lookup k (claim name ks m) ≡ some name
unfolding claim contains
lookup-claimed name k [] m h = cc
lookup-claimed name k (j ∷ ks) m h = elim (Bool-cases (j == k)) [
  | inl e ↦
      claimed_again name k ks (insert j name m)
        (ground (arith, e, string_eq.beq_iff j k, lookup-insert j k name m))
  | inr e ↦ lookup-claimed name k ks (insert j name m) (ground (arith, e, h))
]

is_open :
    (r : Registry) (k : String) (ks : List String)
    → contains k ks ≡ true
    → any (is_taken r) ks ≡ false
    → contains k root_keys ≡ false
unfolding any contains is_taken
is_open r k [] h u = cc
is_open r k (j ∷ ks) h u = elim (Bool-cases (j == k)) [
  | inl e ↦
      subst (λ x. contains x root_keys ≡ false) ((string_eq.beq_iff j k).0 e) (ground (arith, u))
  | inr e ↦ is_open r k ks (ground (arith, e, h)) (ground (arith, u))
]

-- If a component is registered that provides a key, and the key is not the name of any component then
-- registered: the key is that component's, and a component that has the key for its name and provides
-- nothing is registered after it without an error and takes the key from it.
pub name_takes_key_over :
    (r r' : Registry) (owner c : Component)
    → register r owner ≡ some r'
    → contains c.name owner.provides ≡ true
    → lookup c.name r'.components ≡ none
    → c.provides ≡ []
    → (lookup c.name r'.owners ≡ some owner.name)
      × ((r'' : Registry) × (register r' c ≡ some r'') × (lookup c.name r''.owners ≡ some c.name))
unfolding register claim any
name_takes_key_over r r' owner c registered provided free nothing =
    let (untaken, owners) = registered_owners r owner registered in
    let open_name = is_open r c.name owner.provides provided untaken in
    (
      ap (lookup c.name) owners ∙ lookup-claimed owner.name c.name owner.provides _ provided,
      (
        record {
          components = insert c.name c r'.components;
          owners = insert c.name c.name r'.owners;
        },
        rw (free, open_name, nothing) refl,
        ground
            (arith, string_eq.beq_iff c.name c.name, lookup-insert c.name c.name c.name r'.owners),
      ),
    )
