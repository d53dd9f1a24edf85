-- ===== src/Refresh/Pass.antt =====
-- `CacheRefresher` of src/api/cost_cache.py: the state of its retries, a pass over the providers, and the
-- requests. The thread, its events and the lock are left out, as are the exceptions of the database. The
-- plugins, their answers, the jitter and the clock are arguments; the readings of the clock that follow
-- one answer are one reading. A dictionary with a default is a total function: a failure count of 0 and
-- a gate of 0 are keys that are absent.
use simple_lcp.Prelude.{
  ℕ, zero, suc, ◌+◌, ◌-◌, ◌*◌, min, String, Bool, true, false, not, ◌&&◌, ◌||◌, Option, none, some,
  List, [], ◌∷◌, ◌==◌, string_eq, ltb, if◌then◌else◌,
}
use Prim.Native.String.{◌++◌}
use simple_lcp.Refresh.Rows.{Key, put, data_of, error, Rows, set, mark_stale, is_stale, clear}

abbrev kinds : List String
kinds = "subscription" ∷ "balance" ∷ []

pub record Settings : Type 0 where
  pub throttle : ℕ
  pub backoff_base : ℕ
  pub backoff_cap : ℕ
  -- what get_ttl_minutes answers for a provider
  pub ttl_minutes : String → ℕ

-- What the plugin's method does: it raises, it has no data, it reports an error with its detail, or it
-- gives a payload.
pub data Answer (P : Type 0) : Type 0 where
  raises : String → Answer P
  no_data : Answer P
  reports : String → String → Answer P
  gives : P → Answer P

-- one call of a plugin, with the clock after it and the jitter that is drawn if it fails
pub record Call (P : Type 0) : Type 0 where
  pub answer : Answer P
  pub finished : ℕ
  pub jitter : ℕ

abbrev power_of_two : ℕ → ℕ
power_of_two zero = 1
power_of_two (suc n) = 2 * power_of_two n

-- x or y
abbrev or_else : String → String → String
or_else x y = if x == "" then y else x

module _ (P : Type 0) (G : Settings) where
  pub record Refresher : Type 0 where
    pub rows : Rows P
    pub pending : Key → Bool
    pub refresh_all : Bool
    pub quiet : Key → Bool
    pub last_attempt : Key → ℕ
    pub failures : Key → ℕ
    pub next_attempt : Key → ℕ
    pub last_error : Key → Option String

  unfoldable pub ttl : Key → ℕ
  ttl key = G.ttl_minutes key.provider * 60000

  -- the wait before the next try after `fails` failures, without the jitter
  unfoldable pub backoff : ℕ → ℕ
  backoff fails = min (G.backoff_base * power_of_two (fails - 1)) G.backoff_cap

  unfoldable pub delay_of : Key → ℕ → Bool → ℕ → ℕ
  delay_of key fails transient jitter = if transient then backoff fails + jitter else ttl key

  -- the end of `_record_failure`
  unfoldable pub kept_or_failed : ℕ → Key → String → String → Rows P → Rows P
  kept_or_failed now key kind detail rows = elim (rows key) [
    | none ↦ set P now key (error kind detail) (some detail) rows
    | some row ↦ mark_stale P key detail rows
  ]

  unfoldable pub record_failure : Call P → Key → String → String → Bool → Refresher → Refresher
  record_failure c key kind detail transient s =
      let fails = suc (s.failures key) in
      record s {
        rows = kept_or_failed c.finished key kind detail s.rows;
        failures = put key fails s.failures;
        last_error = put key (some detail) s.last_error;
        next_attempt = put key (c.finished + delay_of key fails transient c.jitter) s.next_attempt;
      }

  unfoldable pub no_answer : Call P → Key → Refresher → Refresher
  no_answer c key s = elim (s.rows key) [
    | none ↦ record s { quiet = put key true s.quiet }
    | some row ↦
        record_failure c key "api_error" (key.provider ++ " returned no " ++ key.kind ++ " data")
          true s
  ]

  unfoldable pub refreshed : Call P → Key → P → Refresher → Refresher
  refreshed c key payload s = record s {
    rows = set P c.finished key (data_of payload) none s.rows;
    failures = put key 0 s.failures;
    next_attempt = put key 0 s.next_attempt;
    last_error = put key none s.last_error;
  }

  unfoldable pub scrape_answer : Answer P → Call P → Key → Refresher → Refresher
  scrape_answer (raises e) c key s =
      record_failure c key "api_error" (or_else e "scrape failed") true s
  scrape_answer no_data c key s = no_answer c key s
  scrape_answer (reports kind detail) c key s =
      record_failure c key kind (or_else detail kind)
        (not (kind == "auth_failed" || kind == "no_subscription")) s
  scrape_answer (gives payload) c key s = refreshed c key payload s

  unfoldable pub scrape : Call P → Key → Refresher → Refresher
  scrape c key s = scrape_answer c.answer c key s

  -- the guards of the inner loop of `_pass`, for a key that its plugin supports
  unfoldable pub attempt : ℕ → Bool → (Key → Call P) → Key → Refresher → Refresher
  attempt now forced call key s =
      if not forced && s.quiet key
      then s
      else if not forced && not (is_stale P now (ttl key) key s.rows)
      then s
      else if ltb now (s.last_attempt key + G.throttle)
      then record s { pending = put key true s.pending }
      else if ltb now (s.next_attempt key)
      then s
      else scrape (call key) key (record s { last_attempt = put key now s.last_attempt })

  unfoldable pub attempts : ℕ → (Key → Bool) → (Key → Call P) → List Key → Refresher → Refresher
  attempts now forced call [] s = s
  attempts now forced call (key ∷ keys) s =
      attempts now forced call keys (attempt now (forced key) call key s)

  -- the keys that the two loops of `_pass` visit
  unfoldable pub supported : (String → String → Bool) → String → List String → List Key → List Key
  supported supports provider [] more = more
  supported supports provider (kind ∷ ks) more =
      let rest = supported supports provider ks more in
      if supports provider kind then record { provider = provider; kind = kind } ∷ rest else rest

  unfoldable pub visited : (String → String → Bool) → List String → List Key
  visited supports [] = []
  visited supports (provider ∷ more) = supported supports provider kinds (visited supports more)

  unfoldable pub pass :
      ℕ → (String → String → Bool) → List String → (Key → Call P) → Refresher → Refresher
  pass now supports providers call s =
      attempts now (λ k. s.refresh_all || s.pending k) call (visited supports providers)
        (record s { pending = λ k. false; refresh_all = false })

  -- `request_refresh` for one key
  unfoldable pub request_refresh : Key → Refresher → Refresher
  request_refresh key s = record s {
    pending = put key true s.pending;
    next_attempt = put key 0 s.next_attempt;
    failures = put key 0 s.failures;
    last_error = put key none s.last_error;
    quiet = put key false s.quiet;
  }

  unfoldable clear_cache : Refresher → Refresher
  clear_cache s = record s {
    rows = clear P s.rows;
    pending = λ k. false;
    refresh_all = false;
    quiet = λ k. false;
  }
