-- ===== src/Breaker/Synced.antt =====
-- The write-through of src/api/circuit_breaker.py: what is in memory is what the table holds, under
-- every write of an entry.
use simple_lcp.Prelude.{
  ℕ, String, ◌≡◌, ◌∙◌, ap, refl, sym, subst, ◌⊎◌, Option, none, some, List, [], ◌∷◌, ◌==◌,
  Option-cases, inl, inr, arith, lookup, insert, lookup-insert, insert-Unique, Unique,
  if◌then◌else◌,
}
use simple_lcp.Breaker.Health.{Key, key_eq, Status, Health, Now, default_health}
use simple_lcp.Breaker.Table.{Row, Rows, HealthTable, Lawful}
use simple_lcp.Breaker.Entries.{of_row, to_row, load_rows, level_up}
use simple_lcp.Breaker.Ops.{Breaker, persist, peek, get_health, promote, is_available, store_entry}
use simple_lcp.Breaker.Effects.{entry, health-persist, engine-get_health, entry-get_health}

-- The database answers: every call that the program may make of it returns.
pub record Reliable {T : HealthTable} (L : Lawful T) : Type 0 where
  pub first_returns : (db : T.Db) (k : Key) → (o : Option Row) × (T.first db k ≡ some o)
  pub add_returns :
      (k : Key) (r : Row) (db : T.Db)
      → lookup k (L.rows db) ≡ none
      → (db' : T.Db) × (T.add k r db ≡ some db')
  pub write_returns : (k : Key) (r : Row) (db : T.Db) → (db' : T.Db) × (T.write k r db ≡ some db')
  pub all_returns : (db : T.Db) → (rs : Rows) × (T.all db ≡ some rs)
  pub delete_returns :
      (p : String) (db : T.Db) → (n : ℕ) × (db' : T.Db) × (T.delete p db ≡ some (n, db'))

-- The entry that a row stands for; no row is an entry that nothing was recorded of.
abbrev row_health : Key → Option Row → Health
row_health k none = default_health k
row_health k (some r) = of_row k r

pub lookup-load_rows :
    (rs : Rows) (m : List (Key × Health)) (j : Key)
    → Unique rs
    → lookup j (load_rows rs m)
      ≡ elim (lookup j rs) [ none ↦ lookup j m | some r ↦ some (of_row j r) ]
unfolding load_rows lookup
lookup-load_rows [] m j u = refl
lookup-load_rows ((k, r) ∷ rs) m j u = ground (
  arith,
  lookup-load_rows rs (insert k (of_row k r) m) j u.1,
  lookup-insert k j (of_row k r) m,
  key_eq.beq_iff k j,
)

of_row-to_row : (k : Key) (h : Health) (now : String) → h.key ≡ k → of_row k (to_row h now) ≡ h
unfolding of_row to_row
of_row-to_row k h now e = ground arith

module _ (T : HealthTable) (L : Lawful T) where
  -- Memory and table agree on every key.
  pub record Synced (b : Breaker T) (db : T.Db) : Type 0 where
    pub attached : b.engine ≡ some db
    pub agree : (j : Key) → peek T b j ≡ row_health j (lookup j (L.rows db))
    pub unique : Unique (L.rows db)

  module _ (R : Reliable L) where
    rows-store_entry :
        (db : T.Db) (k : Key) (r : Row) → L.rows (store_entry T db k r) ≡ insert k r (L.rows db)
    unfolding store_entry
    rows-store_entry db k r =
        let (o, e) = R.first_returns db k in
        let w = R.write_returns k r db in
        elim (Option-cases o) [
          | inl n ↦
              let a = R.add_returns k r db (sym (L.first_reads db k e) ∙ n) in
              rw (e, n, a.1) (L.add_appends k r db (sym (L.first_reads db k e) ∙ n) a.1)
          | inr (old, s) ↦ rw (e, s, w.1) (L.write_updates k r db w.1)
        ]

    key-row_health : (j : Key) (o : Option Row) → (row_health j o).key ≡ j
    unfolding default_health of_row
    key-row_health j none = refl
    key-row_health j (some r) = refl

    pub peek-key : (b : Breaker T) (db : T.Db) (j : Key) → Synced b db → (peek T b j).key ≡ j
    peek-key b db j s = ap (λ h. h.key) (s.agree j) ∙ key-row_health j (lookup j (L.rows db))

    engine-persist :
        (b : Breaker T) (db : T.Db) (k : Key) (h : Health) (now : String)
        → b.engine ≡ some db
        → entry T b k ≡ some h
        → (persist T b k now).engine ≡ some (store_entry T db k (to_row h now))
    unfolding persist
    engine-persist b db k h now e f = rw (e, f)

    -- One entry replaced and written through.
    write-Synced :
        (b c : Breaker T) (db : T.Db) (k : Key) (h : Health) (now : String)
        → Synced b db
        → c.engine ≡ some db
        → h.key ≡ k
        → ((j : Key) → entry T c j ≡ (if k == j then some h else entry T b j))
        → Synced (persist T c k now) (store_entry T db k (to_row h now))
    unfolding peek
    write-Synced b c db k h now s e own new = record {
      attached = engine-persist c db k h now e (ground (arith, new k, key_eq.beq_iff k k));
      agree = λ j. ground (
        arith,
        health-persist T c k now,
        new j,
        key_eq.beq_iff k j,
        s.agree j,
        rows-store_entry db k (to_row h now),
        lookup-insert k j (to_row h now) (L.rows db),
        of_row-to_row k h now own,
      );
      unique =
          rw (rows-store_entry db k (to_row h now))
            (insert-Unique k (to_row h now) (L.rows db) s.unique);
    }

    -- The breaker is attached to some table that agrees with it.
    abbrev pub IsSynced : Breaker T → Type 0
    IsSynced b = (db : T.Db) × Synced b db

    peek-get_health_any : (b : Breaker T) (k j : Key) → peek T (get_health T b k) j ≡ peek T b j
    unfolding peek
    peek-get_health_any b k j = ground (arith, entry-get_health T b k j, key_eq.beq_iff k j)

    pub get_health-IsSynced : (b : Breaker T) (k : Key) → IsSynced b → IsSynced (get_health T b k)
    get_health-IsSynced b k (db, s) = (
      db,
      record {
        attached = engine-get_health T b k ∙ s.attached;
        agree = λ j. peek-get_health_any b k j ∙ s.agree j;
        unique = s.unique;
      },
    )

    -- A method that writes the entry of `k` anew keeps memory and table in step.
    pub rewrite-IsSynced :
        (b : Breaker T) (k : Key) (h : Health) (now : String)
        → IsSynced b
        → h.key ≡ k
        → let b' = get_health T b k in
          IsSynced (persist T (record b' { health = insert k h b'.health }) k now)
    rewrite-IsSynced b k h now (db, s) own =
        let b' = get_health T b k in
        let c : Breaker T = record b' { health = insert k h b'.health } in
        (
          store_entry T db k (to_row h now),
          write-Synced b c db k h now s (engine-get_health T b k ∙ s.attached) own
              (λ j. ground (arith, lookup-insert k j h b'.health, entry-get_health T b k j)),
        )

    promote-IsSynced :
        (b : Breaker T) (k : Key) (st : Status) (now : String)
        → IsSynced b
        → IsSynced (promote T b k (peek T b k) st now)
    unfolding promote
    promote-IsSynced b k st now (db, s) =
        let h : Health = record (peek T b k) { status = st; tripped_until = none } in
        let c : Breaker T = record b { health = insert k h b.health } in
        let own = peek-key b db k s in
        subst (λ x. IsSynced (persist T c x now)) (sym own)
          (
            store_entry T db k (to_row h now),
            write-Synced b c db k h now s s.attached own (λ j. lookup-insert k j h b.health),
          )

    is_available-cases :
        (b : Breaker T) (k : Key) (n : Now)
        → ((is_available T b k n).1 ≡ b)
          ⊎ ((is_available T b k n).1
              ≡ promote T b k (peek T b k) (level_up (peek T b k).status) n.iso)
    unfolding is_available
    is_available-cases b k n = ground arith

    pub is_available-IsSynced :
        (b : Breaker T) (k : Key) (n : Now) → IsSynced b → IsSynced (is_available T b k n).1
    is_available-IsSynced b k n s = elim (is_available-cases b k n) [
      | inl e ↦ subst IsSynced (sym e) s
      | inr e ↦ subst IsSynced (sym e) (promote-IsSynced b k (level_up (peek T b k).status) n.iso s)
    ]
