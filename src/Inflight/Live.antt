-- ===== src/Inflight/Live.antt =====
-- The operations of src/api/inflight.py. Times are floats, whose operations are those of Router/Scores
-- with `round(x, 1)` beside them; the token that `uuid4` draws and the clock are arguments. The lock is
-- left out.
use simple_lcp.Prelude.{
  ℕ, String, Bool, Option, List, [], ◌∷◌, map, ◌==◌, string_eq, insert, remove, length, count_if,
  sort_by, if◌then◌else◌,
}
use simple_lcp.Router.Scores.{Floats}

module _ (N : Floats) where
  pub record Running : Type 0 where
    pub id : String
    pub profile : String
    pub model : String
    pub provider : String
    pub started_at : N.F
    pub prompt_tokens : ℕ
    pub stream : Bool
    pub conversation_id : Option String
    pub tools : ℕ

  abbrev pub Entries : Type 0
  Entries = List (String × Running)

  -- x or "unknown"
  abbrev or_unknown : String → String
  or_unknown s = if s == "" then "unknown" else s

  -- `begin`, whose token is `token`
  unfoldable pub begin :
      String → N.F → String → String → String → ℕ → Bool → Option String → ℕ → Entries → Entries
  begin token now profile model provider prompt_tokens stream conversation_id tools entries =
      insert token
        (record {
          id = token;
          profile = or_unknown profile;
          model = or_unknown model;
          provider = or_unknown provider;
          started_at = now;
          prompt_tokens = prompt_tokens;
          stream = stream;
          conversation_id = conversation_id;
          tools = tools;
        })
        entries

  -- `end`, where no token is the empty text
  unfoldable pub end : String → Entries → Entries
  end token entries = if token == "" then entries else remove token entries

  unfoldable pub is_stale : N.F → String × Running → Bool
  is_stale cutoff e = N.lt e.1.started_at cutoff

  -- del _ENTRIES[k], for each stale entry
  unfoldable pub drop_stale : N.F → Entries → Entries
  drop_stale cutoff [] = []
  drop_stale cutoff (e ∷ entries) =
      if is_stale cutoff e then drop_stale cutoff entries else e ∷ drop_stale cutoff entries

  unfoldable pub sweep : N.F → N.F → Entries → ℕ × Entries
  sweep now max_age entries =
      let cutoff = N.sub now max_age in
      (count_if (is_stale cutoff) entries, drop_stale cutoff entries)

  -- A row of the snapshot: the entry with its `elapsed_s`.
  pub record Row : Type 0 where
    pub running : Running
    pub elapsed : N.F

  unfoldable pub row : (N.F → N.F) → N.F → String × Running → Row
  row round_1 now e = record { running = e.1; elapsed = round_1 (N.sub now e.1.started_at) }

  -- rows.sort(key=elapsed_s, reverse=True)
  unfoldable pub snapshot : (N.F → N.F) → N.F → Entries → List Row
  snapshot round_1 now entries =
      sort_by (λ (x y : Row). N.lt y.elapsed x.elapsed) (map (row round_1 now) entries)

  unfoldable pub count : Entries → ℕ
  count entries = length entries

  -- `clear`
  unfoldable pub clear : Entries → Entries
  clear entries = []
