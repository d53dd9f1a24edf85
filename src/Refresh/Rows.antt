-- ===== src/Refresh/Rows.antt =====
-- `CostPluginCache` of src/api/cost_cache.py: the stored payloads, one row for a provider and a kind. A
-- time is a number of milliseconds, the JSON text of a payload is the payload.
use simple_lcp.Prelude.{
  ℕ, ◌+◌, String, ◌≡◌, ◌↔◌, Bool, true, ◌&&◌, Option, none, some, ◌==◌, string_eq, leb, arith,
  if◌then◌else◌,
}

-- (provider, kind)
pub record Key : Type 0 where
  pub provider : String
  pub kind : String

abbrev pub same_key : Key → Key → Bool
same_key a b = a.provider == b.provider && a.kind == b.kind

pub same_key_iff : (a b : Key) → (same_key a b ≡ true) ↔ (a ≡ b)
same_key_iff a b =
    ground (arith, string_eq.beq_iff a.provider b.provider, string_eq.beq_iff a.kind b.kind)

-- m[key] = v, for a dictionary as a function
unfoldable pub put {ℓ} : {V : Type ℓ} → Key → V → (Key → V) → Key → V
put key v m k = if same_key key k then v else m k

-- what a plugin returned, or `{"_error": ..., "detail": ...}`
pub data Payload (P : Type 0) : Type 0 where
  data_of : P → Payload P
  error : String → String → Payload P

pub record Row (P : Type 0) : Type 0 where
  pub payload : Payload P
  pub fetched_at : ℕ
  pub stale_error : Option String

module _ (P : Type 0) where
  abbrev pub Rows : Type 0
  Rows = Key → Option (Row P)

  unfoldable pub set : ℕ → Key → Payload P → Option String → Rows → Rows
  set now key payload stale_error rows =
      put key (some (record { payload = payload; fetched_at = now; stale_error = stale_error }))
        rows

  abbrev marked : String → Option (Row P) → Option (Row P)
  marked e none = none
  marked e (some row) = some (record row { stale_error = some e })

  unfoldable pub mark_stale : Key → String → Rows → Rows
  mark_stale key e rows = put key (marked e (rows key)) rows

  abbrev old : ℕ → ℕ → Option (Row P) → Bool
  old now ttl none = true
  old now ttl (some row) = leb (row.fetched_at + ttl) now

  unfoldable pub is_stale : ℕ → ℕ → Key → Rows → Bool
  is_stale now ttl key rows = old now ttl (rows key)

  -- An empty provider or kind matches every row.
  abbrev matches : String → String → Bool
  matches asked have = if asked == "" then true else asked == have

  unfoldable pub invalidate : String → String → Rows → Rows
  invalidate provider kind rows =
      λ k. if matches provider k.provider && matches kind k.kind then none else rows k

  unfoldable pub clear : Rows → Rows
  clear rows = invalidate "" "" rows
