-- ===== src/Refresh/Failures.antt =====
-- What a failed call of a plugin leaves in the cache of src/api/cost_cache.py, and what the next passes do.
use Prim.Native.String.{◌++◌}
use simple_lcp.Prelude.{
  ℕ, ◌+◌, ◌<◌, String, ◌≡◌, refl, ◌∙◌, ◌≢◌, Bool, true, false, none, some, string_eq, arith,
  if◌then◌else◌,
}
use simple_lcp.Refresh.Rows.{Key, error, Row, Rows, set, mark_stale, is_stale}
use simple_lcp.Refresh.Pass.{
  Settings, Answer, raises, no_data, reports, gives, Call, Refresher, ttl, kept_or_failed,
  record_failure, no_answer, scrape_answer, scrape, attempt,
}
use simple_lcp.Refresh.Gates.{put-same}

module _ (P : Type 0) (G : Settings) where
  -- the call gave no data to keep
  abbrev pub IsFailed : Answer P → Type 0
  IsFailed a = (p : P) → a ≢ gives p

  marked_row :
      (now : ℕ) (key : Key) (kind detail : String) (rows : Rows P) (row : Row P)
      → rows key ≡ some row
      → kept_or_failed P G now key kind detail rows key
        ≡ some (record row { stale_error = some detail })
  unfolding kept_or_failed mark_stale
  marked_row now key kind detail rows row e =
      rw (kept_or_failed, e) (put-same key _ rows ∙ rw e refl)

  answer_keeps_row :
      (a : Answer P) (c : Call P) (key : Key) (s : Refresher P G) (row : Row P)
      → s.rows key ≡ some row
      → IsFailed a
      → (d : String) × ((scrape_answer P G a c key s).rows key
          ≡ some (record row { stale_error = some d }))
  unfolding scrape_answer record_failure no_answer
  answer_keeps_row (raises d) c key s row e failed = (_, marked_row c.finished key _ _ s.rows row e)
  answer_keeps_row (reports k d) c key s row e failed =
      (_, marked_row c.finished key _ _ s.rows row e)
  answer_keeps_row no_data c key s row e failed = (
    key.provider ++ " returned no " ++ key.kind ++ " data",
    rw (no_answer, e) (marked_row c.finished key _ _ s.rows row e),
  )
  answer_keeps_row (gives p) c key s row e failed = elim (failed p refl) [ ]

  -- If there is a payload in the cache and the call gives none, because it raises, has no data or
  -- reports an error: the payload and its time stay, and the row is marked with an error.
  pub failed_call_keeps_payload :
      (c : Call P) (key : Key) (s : Refresher P G) (row : Row P)
      → s.rows key ≡ some row
      → IsFailed c.answer
      → (d : String) × ((scrape P G c key s).rows key ≡ some (record row { stale_error = some d }))
  unfolding scrape
  failed_call_keeps_payload c key s row e failed = answer_keeps_row c.answer c key s row e failed

  failed_row :
      (now : ℕ) (key : Key) (kind detail : String) (rows : Rows P)
      → rows key ≡ none
      → kept_or_failed P G now key kind detail rows key
        ≡ some (record { payload = error kind detail; fetched_at = now; stale_error = some detail })
  unfolding kept_or_failed set
  failed_row now key kind detail rows e = rw (kept_or_failed, e) (put-same key _ rows)

  if-same : {A : Type 0} → (b : Bool) (x y : A) → y ≡ x → (if b then x else y) ≡ x
  if-same true x y e = refl
  if-same false x y e = e

  fresh_not_stale :
      (now t : ℕ) (key : Key) (rows : Rows P) (row : Row P)
      → rows key ≡ some row
      → now < row.fetched_at + t
      → is_stale P now t key rows ≡ false
  unfolding is_stale
  fresh_not_stale now t key rows row e early = rw (is_stale, e) (ground arith)

  fresh_is_left :
      (now : ℕ) (call : Key → Call P) (key : Key) (s : Refresher P G) (row : Row P)
      → s.rows key ≡ some row
      → now < row.fetched_at + ttl P G key
      → attempt P G now false call key s ≡ s
  unfolding attempt
  fresh_is_left now call key s row e early =
      if-same (s.quiet key) s _ (rw (fresh_not_stale now (ttl P G key) key s.rows row e early) refl)

  -- If there is no payload in the cache and the call raises: until the refresh interval is over since
  -- that failure, a pass in which nobody asked for the key changes nothing for it, however short the
  -- backoff is.
  pub first_failure_waits :
      (c : Call P) (key : Key) (s : Refresher P G) (e : String) (now : ℕ) (call : Key → Call P)
      → s.rows key ≡ none
      → c.answer ≡ raises e
      → now < c.finished + ttl P G key
      → attempt P G now false call key (scrape P G c key s) ≡ scrape P G c key s
  unfolding scrape scrape_answer record_failure
  first_failure_waits c key s e now call absent failed early =
      rw failed (fresh_is_left now call key _ _ (failed_row c.finished key _ _ s.rows absent) early)
