-- ===== src/Refresh/Examples.antt =====
-- Runs of the refresher with one provider.
use simple_lcp.Prelude.{
  ℕ, ◌+◌, ◌≤◌, ◌<◌, String, ◌≡◌, ◌⊎◌, inl, inr, refl, true, false, none, some, [], ◌∷◌, arith,
}
use simple_lcp.Refresh.Rows.{Key, data_of, Row, Rows}
use simple_lcp.Refresh.Pass.{
  Settings, Answer, raises, no_data, gives, Call, Refresher, ttl, request_refresh, scrape, attempt,
  pass, visited, supported,
}
use simple_lcp.Refresh.Gates.{pass-IsGated}
use simple_lcp.Refresh.Requests.{IsAmong, request_is_served}
use simple_lcp.Refresh.Failures.{IsFailed, failed_call_keeps_payload, first_failure_waits}

abbrev times : Settings
times = record {
  throttle = 10000;
  backoff_base = 60000;
  backoff_cap = 1800000;
  ttl_minutes = λ p. 30;
}

abbrev key : Key
key = record { provider = "vendor"; kind = "balance" }

abbrev refresher : Rows ℕ → Refresher ℕ times
refresher rows = record {
  rows = rows;
  pending = λ k. true;
  refresh_all = false;
  quiet = λ k. false;
  last_attempt = λ k. 0;
  failures = λ k. 0;
  next_attempt = λ k. 0;
  last_error = λ k. none;
}

abbrev call : Answer ℕ → Call ℕ
call a = record { answer = a; finished = 50000; jitter = 3000 }

abbrev row : Row ℕ
row = record { payload = data_of 7; fetched_at = 20000; stale_error = none }

pass-IsGated_example :
    (((pass ℕ times 50000
            (λ p k. true)
            ("vendor" ∷ [])
            (λ k. call (raises "down"))
            (refresher (λ k. none))).last_attempt
          key
        ≡ 0)
      × ((pass ℕ times 50000
              (λ p k. true)
              ("vendor" ∷ [])
              (λ k. call (raises "down"))
              (refresher (λ k. none))).next_attempt
            key
          ≡ 0))
    ⊎ ((10000 ≤ 50000) × (0 ≤ 50000))
pass-IsGated_example =
    pass-IsGated ℕ times 50000 (λ p k. true) ("vendor" ∷ []) (λ k. call (raises "down")) key
      (refresher (λ k. none))

no_data_given : IsFailed ℕ times no_data
no_data_given p e = cc

failed_call_keeps_payload_example :
    (d : String) × ((scrape ℕ times (call no_data) key (refresher (λ k. some row))).rows key
      ≡ some (record row { stale_error = some d }))
failed_call_keeps_payload_example =
    failed_call_keeps_payload ℕ times (call no_data) key (refresher (λ k. some row)) row refl
      no_data_given

early : 200000 < 50000 + ttl ℕ times key
unfolding ttl
early = omega arith

first_failure_waits_example :
    attempt ℕ times 200000 false
      (λ k. call (gives 5))
      key
      (scrape ℕ times (call (raises "down")) key (refresher (λ k. none)))
    ≡ scrape ℕ times (call (raises "down")) key (refresher (λ k. none))
first_failure_waits_example =
    first_failure_waits ℕ times (call (raises "down")) key (refresher (λ k. none)) "down" 200000
      (λ k. call (gives 5)) refl refl early

key_is_visited : IsAmong key (visited ℕ times (λ p k. true) ("vendor" ∷ []))
unfolding visited supported
key_is_visited = inr (inl refl)

request_is_served_example :
    (pass ℕ times 50000
        (λ p k. true)
        ("vendor" ∷ [])
        (λ k. call (raises "down"))
        (request_refresh ℕ times key (refresher (λ k. some row)))).last_attempt
      key
    ≡ 50000
request_is_served_example =
    request_is_served ℕ times 50000 (λ p k. true) ("vendor" ∷ []) (λ k. call (raises "down")) key
      (refresher (λ k. some row)) (omega arith) key_is_visited
