-- ===== src/Alerts/Manager.antt =====
-- `AlertManager` (src/api/alert_manager.py) over a table and a webhook that are parameters. An alert
-- is one object that the history and the active alerts share, so the history keeps alerts as they
-- were fired under their place in the list, and a change of a shared alert is made in both.
use Prim.Native.String.{◌++◌ as join_text}
use simple_lcp.Prelude.{
  ℕ, suc, ◌+◌, String, Bool, true, false, not, ◌&&◌, ◌||◌, Option, none, some, List, [], ◌∷◌, ◌++◌,
  ◌==◌, string_eq, nat_beq, ltb, length, lookup, insert, remove, if◌then◌else◌,
}

-- A rule of the configuration: its keys may be absent.
pub record Rule : Type 0 where
  pub enabled : Option Bool
  pub min_severity : Option String

pub record Settings : Type 0 where
  pub rules : List (String × Rule)
  pub cooldown_seconds : ℕ

pub record Alert : Type 0 where
  pub serial : ℕ
  pub dedup_key : String
  pub rule : String
  pub severity : String
  pub title : String
  pub message : String
  pub resolved_at : Option String
  pub acknowledged_at : Option String
  pub timestamp : String

-- What is asked of the `alerts` table; `none` is a session that raised.
pub record AlertTable : Type 1 where
  pub Db : Type 0
  pub add : Alert → Db → Option Db
  -- the first row of the key, its status and date assigned; false if there is none
  pub resolve : String → String → Db → Option (Bool × Db)
  pub acknowledge : String → String → Db → Option (Bool × Db)

-- {"info": 0, "warning": 1, "critical": 2}.get(s, 0)
unfoldable pub level : String → ℕ
level s = if s == "critical" then 2 else if s == "warning" then 1 else 0

abbrev or_default {ℓ} : {A : Type ℓ} → A → Option A → A
or_default d none = d
or_default d (some a) = a

-- `self._config["rules"].get(rule, {})`
abbrev rule_of : Settings → String → Rule
rule_of c r = or_default (record { enabled = none; min_severity = none }) (lookup r c.rules)

-- the rule is on and the severity reaches its threshold
unfoldable pub passes : Settings → String → String → Bool
passes c r severity =
    or_default true (rule_of c r).enabled
    && not (ltb (level severity) (level (or_default "info" (rule_of c r).min_severity)))

-- the last entries, at most `n`
unfoldable pub last_entries {ℓ} : {A : Type ℓ} → ℕ → List A → List A
last_entries n [] = []
last_entries n (x ∷ xs) = if ltb n (length (x ∷ xs)) then last_entries n xs else x ∷ xs

-- An event of `fire`.
pub record Event : Type 0 where
  pub rule : String
  pub severity : String
  pub title : String
  pub message : String
  pub dedup_key : String

pub record Clock : Type 0 where
  pub time : ℕ
  pub iso : String

module _ (T : AlertTable) (show : ℕ → String) where
  pub record Manager : Type 0 where
    pub settings : Settings
    pub history : List Alert
    pub active : List (String × Alert)
    pub last_fire : List (String × ℕ)
    pub fired : ℕ
    pub engine : Option T.Db

  -- f"{rule}:{title}:{int(time.time())}", where no key is given
  unfoldable pub key_of : Event → Clock → String
  key_of e now =
      if e.dedup_key == ""
      then join_text e.rule (join_text ":" (join_text e.title (join_text ":" (show now.time))))
      else e.dedup_key

  -- now - last < self._cooldown_seconds
  unfoldable pub cooling : Manager → Event → Clock → Bool
  cooling m e now =
      not (e.dedup_key == "")
      && ltb now.time (or_default 0 (lookup e.dedup_key m.last_fire) + m.settings.cooldown_seconds)

  abbrev committed : T.Db → Option T.Db → T.Db
  committed db none = db
  committed db (some db') = db'

  persist_alert : Option T.Db → Alert → Option T.Db
  persist_alert none a = none
  persist_alert (some db) a = some (committed db (T.add a db))

  unfoldable pub alert_of : Manager → Event → Clock → Alert
  alert_of m e now = record {
    serial = m.fired;
    dedup_key = key_of e now;
    rule = e.rule;
    severity = e.severity;
    title = e.title;
    message = e.message;
    resolved_at = none;
    acknowledged_at = none;
    timestamp = now.iso;
  }

  -- the alert, to be sent to the webhook, if it fired
  unfoldable pub fire : Manager → Event → Clock → Option Alert × Manager
  unfolding persist_alert
  fire m e now =
      if not (passes m.settings e.rule e.severity) || cooling m e now
      then (none, m)
      else (let a = alert_of m e now in
          (
            some a,
            record m {
              last_fire =
                  if e.dedup_key == ""
                  then m.last_fire
                  else insert e.dedup_key now.time m.last_fire;
              history = last_entries 500 (m.history ++ a ∷ []);
              active = insert a.dedup_key a m.active;
              fired = suc m.fired;
              engine = persist_alert m.engine a;
            },
          ))

  -- the alert object of this serial changed wherever it is held
  unfoldable pub change : ℕ → (Alert → Alert) → List Alert → List Alert
  change n f [] = []
  change n f (a ∷ xs) = (if nat_beq a.serial n then f a else a) ∷ change n f xs

  unfoldable pub close_active : Manager → String → String → Manager
  close_active m k now = elim (lookup k m.active) [
    | none ↦ m
    | some a ↦ record m {
      active = remove k m.active;
      history = change a.serial (λ x. record x { resolved_at = some now }) m.history;
    }
  ]

  unfoldable pub mark_active : Manager → String → String → Manager
  mark_active m k now = elim (lookup k m.active) [
    | none ↦ m
    | some a ↦ record m {
      active = insert k (record a { acknowledged_at = some now }) m.active;
      history = change a.serial (λ x. record x { acknowledged_at = some now }) m.history;
    }
  ]

  abbrev is_some {ℓ} : {A : Type ℓ} → Option A → Bool
  is_some none = false
  is_some (some a) = true

  -- the answer of the table, or the one from memory if it has no such row
  answered : Bool → Manager → Option (Bool × T.Db) → Bool × Manager
  answered found m none = (false, m)
  answered found m (some (true, db)) = (true, record m { engine = some db })
  answered found m (some (false, db)) = (found, record m { engine = some db })

  unfoldable pub resolve : Manager → String → String → Bool × Manager
  unfolding answered
  resolve m k now =
      let found = is_some (lookup k m.active) in
      let m' = close_active m k now in
      elim m'.engine [ none ↦ (found, m') | some db ↦ answered found m' (T.resolve k now db) ]

  unfoldable pub acknowledge : Manager → String → String → Bool × Manager
  unfolding answered
  acknowledge m k now =
      let m' = mark_active m k now in
      let found = is_some (lookup k m'.active) in
      elim m'.engine [ none ↦ (found, m') | some db ↦ answered found m' (T.acknowledge k now db) ]

  pub data Call : Type 0 where
    fires : Event → Clock → Call
    resolves : String → Clock → Call
    acknowledges : String → Clock → Call

  unfoldable pub step : Manager → Call → Manager
  step m (fires e now) = (fire m e now).1
  step m (resolves k now) = (resolve m k now.iso).1
  step m (acknowledges k now) = (acknowledge m k now.iso).1

  unfoldable pub run : Manager → List Call → Manager
  run m [] = m
  run m (c ∷ cs) = run (step m c) cs
