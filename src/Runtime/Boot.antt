-- ===== src/Runtime/Boot.antt =====
-- `Runtime.start` of src/api/runtime.py over components as in src/api/component.py. What a
-- component's `setup` does is a parameter that acts on a world; `none` is a setup that raised.
-- The order holds the components themselves, for their names.
use simple_lcp.Prelude.{
  ℕ, zero, suc, String, Bool, true, false, Option, none, some, List, [], ◌∷◌, ◌++◌, string_eq, ◌||◌,
  length, every, contains, insert, if◌then◌else◌,
}

pub record Component : Type 0 where
  pub name : String
  pub requires : List String
  pub provides : List String

unfoldable pub root_keys : List String
root_keys = "config" ∷ "engine" ∷ "data_dir" ∷ []

-- all(r in ready or r in self.ROOT_KEYS for r in comp.requires)
unfoldable pub satisfied : List String → Component → Bool
satisfied ready c = every (λ r. contains r ready || contains r root_keys) c.requires

-- ready.add(name); ready.update(comp.provides)
abbrev pub with_keys : List String → Component → List String
with_keys ready c = ready ++ c.name ∷ c.provides

module _ {W D : Type 0} (setup : Component → W → Option (Option D) × W) where
  pub record Boot : Type 0 where
    pub world : W
    pub ready : List String
    pub order : List Component
    pub disposers : List (String × Option D)
    pub active : List (String × Bool)
    pub progressed : Bool

  started : Component → Option (Option D) → Boot → Boot
  started c none b = record b {
    disposers = insert c.name none b.disposers;
    active = insert c.name false b.active;
  }
  started c (some d) b = record b {
    disposers = insert c.name d b.disposers;
    active = insert c.name true b.active;
  }

  unfoldable pub setup_one : Component → Boot → Boot
  unfolding started
  setup_one c b =
      let (outcome, world) = setup c b.world in started c outcome (record b { world = world })

  -- the component is set up and, even if that raised, its keys count as ready
  unfoldable pub admit : Component → Boot → Boot
  admit c b =
      let b' = setup_one c b in
      record b' { order = b'.order ++ c ∷ []; ready = with_keys b'.ready c; progressed = true }

  -- one sweep over the pending components, with those that are left
  unfoldable pub sweep : List Component → Boot → List Component × Boot
  sweep [] b = ([], b)
  sweep (c ∷ cs) b =
      let ok = satisfied b.ready c in
      let (left, b') = sweep cs (if ok then admit c b else b) in (if ok then left else c ∷ left, b')

  -- while pending and progressed
  unfoldable pub boot : ℕ → List Component → Boot → List Component × Boot
  boot zero pending b = (pending, b)
  boot (suc fuel) [] b = ([], b)
  boot (suc fuel) (c ∷ cs) b =
      let (left, b') = sweep (c ∷ cs) (record b { progressed = false }) in
      let rest = boot fuel left b' in if b'.progressed then rest else (left, b')

  -- those left pending are marked inactive
  unfoldable pub mark_inactive : List Component → Boot → Boot
  mark_inactive [] b = b
  mark_inactive (c ∷ cs) b = mark_inactive cs (record b { active = insert c.name false b.active })

  -- every sweep but the last sets a component up, so there are no more sweeps than components
  unfoldable pub start : List Component → W → List Component × Boot
  start components w =
      let (left, b) = boot (length components) components (record {
        world = w;
        ready = root_keys;
        order = [];
        disposers = [];
        active = [];
        progressed = true;
      }) in
      (left, mark_inactive left b)
