-- ===== src/Cache/Store.antt =====
-- `PromptCache` (src/api/prompt_cache.py). The key of a request is a parameter (JSON and a hash);
-- times are whole seconds.
use simple_lcp.Prelude.{
  ℕ, suc, ◌+◌, String, Option, none, some, List, [], ◌∷◌, string_eq, ltb, leb, length, lookup,
  insert, remove, if◌then◌else◌,
}

-- (expires_at, response)
pub record Entry (R : Type 0) : Type 0 where
  pub expires : ℕ
  pub response : R

pub record Cache (R : Type 0) : Type 0 where
  pub entries : List (String × Entry R)
  pub ttl : ℕ
  pub max_entries : ℕ
  pub hits : ℕ
  pub misses : ℕ

pub data Call (R : Type 0) : Type 0 where
  gets : String → ℕ → Call R
  sets : String → R → ℕ → Call R

module _ {R : Type 0} where
  -- min(self._cache, key=lambda k: self._cache[k][0]), with the date that `best` has
  unfoldable pub oldest_from : String × ℕ → List (String × Entry R) → String
  oldest_from best [] = best.0
  oldest_from best ((k, e) ∷ m) =
      oldest_from (if ltb e.expires best.1 then (k, e.expires) else best) m

  -- `none` is the ValueError of an empty cache
  unfoldable pub oldest_key : List (String × Entry R) → Option String
  unfolding oldest_from
  oldest_key [] = none
  oldest_key ((k, e) ∷ m) = some (oldest_from (k, e.expires) m)

  found : Cache R → String → ℕ → Option (Entry R) → Option R × Cache R
  found c k now none = (none, record c { misses = suc c.misses })
  found c k now (some e) =
      if ltb e.expires now
      then (none, record c { entries = remove k c.entries; misses = suc c.misses })
      else (some e.response, record c { hits = suc c.hits })

  unfoldable pub get : Cache R → String → ℕ → Option R × Cache R
  unfolding found
  get c k now = found c k now (lookup k c.entries)

  unfoldable pub put : Cache R → String → R → ℕ → Cache R
  put c k response now = record c {
    entries = insert k (record { expires = now + c.ttl; response = response }) c.entries;
  }

  evicted : Cache R → Option String → Option (Cache R)
  evicted c none = none
  evicted c (some k) = some (record c { entries = remove k c.entries })

  stored : String → R → ℕ → Option (Cache R) → Option (Cache R)
  stored k response now none = none
  stored k response now (some c) = some (put c k response now)

  -- `none` if the cache has no room for any entry
  unfoldable pub set : Cache R → String → R → ℕ → Option (Cache R)
  unfolding evicted stored
  set c k response now =
      if leb c.max_entries (length c.entries)
      then stored k response now (evicted c (oldest_key c.entries))
      else some (put c k response now)

  abbrev pub kept : Cache R → Option (Cache R) → Cache R
  kept c none = c
  kept c (some c') = c'

  unfoldable pub step : Cache R → Call R → Cache R
  step c (gets k now) = (get c k now).1
  step c (sets k r now) = kept c (set c k r now)

  unfoldable pub run : Cache R → List (Call R) → Cache R
  run c [] = c
  run c (x ∷ xs) = run (step c x) xs
