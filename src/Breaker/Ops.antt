-- ===== src/Breaker/Ops.antt =====
-- The methods of `CircuitBreaker` (src/api/circuit_breaker.py). A method that changes the breaker
-- returns the new one; log lines are left out. Entries of `_health` are shared by reference in the
-- source, so a write to an entry is a write to the dictionary.
use simple_lcp.Prelude.{
  ℕ, max, String, Bool, true, false, not, ◌&&◌, Option, none, some, List, [], ◌==◌, string_eq,
  length, count_if, lookup, insert, drop_keys, if◌then◌else◌,
}
use simple_lcp.Breaker.Health.{
  Key, key_eq, Status, healthy, is_healthy, is_degraded, is_dead, Health, default_health,
  Thresholds, Now,
}
use simple_lcp.Breaker.Table.{Row, Rows, Failover, HealthTable, of_provider}
use simple_lcp.Breaker.Entries.{
  load_rows, to_row, entry_or_default, expired, is_tripped, level_up, healed, failed, cleared,
  forced, Stats,
}

module _ (T : HealthTable) where
  pub record Breaker : Type 0 where
    pub config : Thresholds
    pub health : List (Key × Health)
    pub engine : Option T.Db

  -- CircuitBreaker(config)
  unfoldable pub new_breaker : Thresholds → Breaker
  new_breaker cfg = record { config = cfg; health = []; engine = none }

  loaded : Breaker → Option Rows → Breaker
  loaded b none = b
  loaded b (some rs) = record b { health = load_rows rs b.health }

  unfoldable load_health : Breaker → Breaker
  unfolding loaded
  load_health b = elim b.engine [ none ↦ b | some db ↦ loaded b (T.all db) ]

  unfoldable pub attach_engine : Breaker → T.Db → Breaker
  unfolding load_health
  attach_engine b db = load_health (record b { engine = some db })

  -- the row is added or overwritten in one session; `none` is a session that raised
  upsert : T.Db → Key → Row → Option (Option Row) → Option T.Db
  upsert db k r none = none
  upsert db k r (some none) = T.add k r db
  upsert db k r (some (some old)) = T.write k r db

  -- a session that raised is logged, and nothing of it is committed
  abbrev pub committed : T.Db → Option T.Db → T.Db
  committed db none = db
  committed db (some db') = db'

  unfoldable pub store_entry : T.Db → Key → Row → T.Db
  unfolding upsert
  store_entry db k r = committed db (upsert db k r (T.first db k))

  persist_entry : Breaker → Key → String → Option Health → Option T.Db → Breaker
  persist_entry b k now (some h) (some db) = record b {
    engine = some (store_entry db k (to_row h now));
  }
  persist_entry b k now _ _ = b

  unfoldable pub persist : Breaker → Key → String → Breaker
  unfolding persist_entry
  persist b k now = persist_entry b k now (lookup k b.health) b.engine

  unfoldable pub peek : Breaker → Key → Health
  peek b k = entry_or_default k (lookup k b.health)

  -- `get_health`: the entry is made if the key is new. `peek` then reads it.
  unfoldable pub get_health : Breaker → Key → Breaker
  get_health b k = elim (lookup k b.health) [
    | none ↦ record b { health = insert k (default_health k) b.health }
    | some h ↦ b
  ]

  unfoldable pub status_of : Breaker → Key → Status
  unfolding peek
  status_of b k = if k.provider == "" then healthy else (peek b k).status

  -- h[…] = …, on the entry that `k` leads to
  abbrev write_entry : Breaker → Key → Health → Breaker
  write_entry b k h = record b { health = insert k h b.health }

  unfoldable pub promote : Breaker → Key → Health → Status → String → Breaker
  promote b k h new_status now =
      persist (write_entry b k (record h { status = new_status; tripped_until = none })) h.key now

  availability : Breaker → Key → Health → Now → Bool × Breaker
  availability b k h now =
      if is_healthy h.status
      then (true, b)
      else if expired h.tripped_until now.time
      then (true, promote b k h (level_up h.status) now.iso)
      else if is_degraded h.status && not (is_tripped h.tripped_until)
      then (true, b)
      else (false, b)

  unfoldable pub is_available : Breaker → Key → Now → Bool × Breaker
  unfolding availability
  is_available b k now = if k.provider == "" then (true, b) else availability b k (peek b k) now

  unfoldable pub record_success : Breaker → Key → Now → Breaker
  record_success b k now =
      let b' = get_health b k in persist (write_entry b' k (healed (peek b' k) now.iso)) k now.iso

  unfoldable pub record_failure : Breaker → Key → Option String → Option String → Now → Breaker
  record_failure b k error_type error_reason now =
      let b' = get_health b k in
      persist (write_entry b' k (failed b'.config (peek b' k) error_type error_reason now)) k
        now.iso

  deleted : Breaker → ℕ → Option T.Db → Option (ℕ × T.Db) → ℕ × Breaker
  deleted b n (some db) (some (rows, db')) = (max rows n, record b { engine = some db' })
  deleted b n _ _ = (n, b)

  abbrev delete_rows : String → Option T.Db → Option (ℕ × T.Db)
  delete_rows p none = none
  delete_rows p (some db) = T.delete p db

  unfoldable pub forget_provider : Breaker → String → ℕ × Breaker
  unfolding deleted
  forget_provider b p =
      let in_memory = count_if (λ (e : Key × Health). of_provider p e.0) b.health in
      deleted (record b { health = drop_keys (of_provider p) b.health }) in_memory b.engine
        (delete_rows p b.engine)

  unfoldable pub reset : Breaker → Key → Now → Breaker
  reset b k now =
      let b' = get_health b k in persist (write_entry b' k (cleared (peek b' k))) k now.iso

  force_entry : Breaker → Key → Option Health → String → Option Status × Breaker
  force_entry b k none now = (none, b)
  force_entry b k (some h) now = (some h.status, persist (write_entry b k h) k now)

  unfoldable pub force_status : Breaker → Key → String → Now → Option Status × Breaker
  unfolding force_entry
  force_status b k action now =
      let b' = get_health b k in
      force_entry b' k (forced b'.config (peek b' k) action now.time) now.iso

  unfoldable pub record_failover : Breaker → Failover → Breaker
  record_failover b f = elim b.engine [
    | none ↦ b
    | some db ↦ record b { engine = some (committed db (T.add_failover f db)) }
  ]

  unfoldable pub stats : Breaker → Stats
  stats b = record {
    total = length b.health;
    healthy_entries = count_if (λ (e : Key × Health). is_healthy e.1.status) b.health;
    degraded_entries = count_if (λ (e : Key × Health). is_degraded e.1.status) b.health;
    dead_entries = count_if (λ (e : Key × Health). is_dead e.1.status) b.health;
  }
