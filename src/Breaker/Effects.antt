-- ===== src/Breaker/Effects.antt =====
-- What each method of src/api/circuit_breaker.py does to the dictionary of health entries, read
-- through `lookup`: one entry is replaced, and every other key is left alone.
use simple_lcp.Prelude.{
  String, ◌≡◌, ◌≢◌, ◌∙◌, ap, Option, none, some, ◌==◌, inl, inr, Option-cases, arith, lookup,
  insert, lookup-insert, lookup-drop_keys, if◌then◌else◌,
}
use simple_lcp.Breaker.Health.{Key, key_eq, Status, Health, Thresholds, default_health, Now}
use simple_lcp.Breaker.Table.{Failover, HealthTable, of_provider}
use simple_lcp.Breaker.Entries.{level_up, healed, failed, cleared, forced}
use simple_lcp.Breaker.Ops.{
  Breaker, persist, peek, get_health, promote, is_available, record_success, record_failure,
  forget_provider, reset, force_status, record_failover,
}

module _ (T : HealthTable) where
  abbrev pub entry : Breaker T → Key → Option Health
  entry b k = lookup k b.health

  pub health-persist :
      (b : Breaker T) (k : Key) (now : String) → (persist T b k now).health ≡ b.health
  unfolding persist
  health-persist b k now = ground arith

  config-persist : (b : Breaker T) (k : Key) (now : String) → (persist T b k now).config ≡ b.config
  unfolding persist
  config-persist b k now = ground arith

  pub entry-get_health :
      (b : Breaker T) (k j : Key)
      → entry (get_health T b k) j ≡ (if k == j then some (peek T b k) else entry b j)
  unfolding get_health peek
  entry-get_health b k j = elim (Option-cases (lookup k b.health)) [
    | inl e ↦ rw (e, get_health, peek) (lookup-insert k j (default_health k) b.health)
    | inr (h, e) ↦ rw (e, get_health, peek) (ground (arith, key_eq.beq_iff k j))
  ]

  config-get_health : (b : Breaker T) (k : Key) → (get_health T b k).config ≡ b.config
  unfolding get_health
  config-get_health b k = ground arith

  pub engine-get_health : (b : Breaker T) (k : Key) → (get_health T b k).engine ≡ b.engine
  unfolding get_health
  engine-get_health b k = ground arith

  pub peek-get_health : (b : Breaker T) (k : Key) → peek T (get_health T b k) k ≡ peek T b k
  unfolding peek
  peek-get_health b k = ground (arith, entry-get_health b k k, key_eq.beq_iff k k)

  -- The entry of `k` replaced, in the dictionary that `get_health` leaves.
  entry-write :
      (b : Breaker T) (k j : Key) (h : Health) (now : String)
      → entry
          (persist T
            (record (get_health T b k) { health = insert k h (get_health T b k).health })
            k
            now)
          j
        ≡ (if k == j then some h else entry b j)
  entry-write b k j h now =
      rw
        (health-persist
          (record (get_health T b k) { health = insert k h (get_health T b k).health }) k now)
        (ground (arith, lookup-insert k j h (get_health T b k).health, entry-get_health b k j))

  pub entry-record_success :
      (b : Breaker T) (k j : Key) (n : Now)
      → entry (record_success T b k n) j
        ≡ (if k == j then some (healed (peek T b k) n.iso) else entry b j)
  unfolding record_success
  entry-record_success b k j n =
      rw (peek-get_health b k) (entry-write b k j (healed (peek T b k) n.iso) n.iso)

  pub entry-record_failure :
      (b : Breaker T) (k j : Key) (error_type error_reason : Option String) (n : Now)
      → entry (record_failure T b k error_type error_reason n) j ≡ (
          if k == j
          then some (failed b.config (peek T b k) error_type error_reason n)
          else entry b j)
  unfolding record_failure
  entry-record_failure b k j error_type error_reason n =
      let h = λ (c : Thresholds). failed c (peek T b k) error_type error_reason n in
      rw (peek-get_health b k) (entry-write b k j (h (get_health T b k).config) n.iso)
      ∙ ap (λ c. if k == j then some (h c) else entry b j) (config-get_health b k)

  entry-reset :
      (b : Breaker T) (k j : Key) (n : Now)
      → entry (reset T b k n) j ≡ (if k == j then some (cleared (peek T b k)) else entry b j)
  unfolding reset
  entry-reset b k j n = rw (peek-get_health b k) (entry-write b k j (cleared (peek T b k)) n.iso)

  -- A manual action on its branches: an action that is not known leaves a default entry behind.
  pub entry-force_status :
      (b : Breaker T) (k j : Key) (action : String) (n : Now)
      → entry (force_status T b k action n).1 j ≡ (
          if k == j
          then some
              (elim (forced b.config (peek T b k) action n.time) [ none ↦ peek T b k | some h ↦ h ])
          else entry b j)
  unfolding force_status get_health
  entry-force_status b k j action n =
      rw (peek-get_health b k, config-get_health b k)
        (elim (Option-cases (forced b.config (peek T b k) action n.time)) [
          | inl e ↦ rw e (entry-get_health b k j)
          | inr (h, e) ↦ rw e (entry-write b k j h n.iso)
        ])

  pub entry-forget_provider :
      (b : Breaker T) (p : String) (j : Key)
      → entry (forget_provider T b p).1 j ≡ (if of_provider p j then none else entry b j)
  unfolding forget_provider
  entry-forget_provider b p j = ground (arith, lookup-drop_keys (of_provider p) j b.health)

  pub health-record_failover :
      (b : Breaker T) (f : Failover) → (record_failover T b f).health ≡ b.health
  unfolding record_failover
  health-record_failover b f = ground arith

  pub entry-promote :
      (b : Breaker T) (k j : Key) (h : Health) (s : Status) (now : String)
      → entry (promote T b k h s now) j
        ≡ (if k == j then some (record h { status = s; tripped_until = none }) else entry b j)
  unfolding promote
  entry-promote b k j h s now =
      rw (health-persist _ h.key now)
        (lookup-insert k j (record h { status = s; tripped_until = none }) b.health)

  pub config-record_failure :
      (b : Breaker T) (k : Key) (error_type error_reason : Option String) (n : Now)
      → (record_failure T b k error_type error_reason n).config ≡ b.config
  unfolding record_failure
  config-record_failure b k error_type error_reason n =
      config-persist _ k n.iso ∙ config-get_health b k

  abbrev IsNamed : Key → Type 0
  IsNamed k = k.provider ≢ ""

  config-is_available :
      (b : Breaker T) (k : Key) (n : Now) → (is_available T b k n).1.config ≡ b.config
  unfolding is_available promote
  config-is_available b k n = ground (
    arith,
    config-persist
        (record b {
          health =
              insert k
                (record (peek T b k) {
                  status = level_up (peek T b k).status;
                  tripped_until = none;
                })
                b.health;
        })
        (peek T b k).key n.iso,
  )

  pub config-force_status :
      (b : Breaker T) (k : Key) (action : String) (n : Now)
      → (force_status T b k action n).1.config ≡ b.config
  unfolding force_status
  config-force_status b k action n =
      let b' = get_health T b k in
      let o = forced b'.config (peek T b' k) action n.time in
      elim (Option-cases o) [
        | inl e ↦ rw e (config-get_health b k)
        | inr (h, e) ↦ rw e (
            config-persist (record b' { health = insert k h b'.health }) k n.iso
            ∙ config-get_health b k)
      ]
