-- ===== src/Chain/Examples.antt =====
-- Runs of the walk of src/api/request_pipeline.py over an upstream that rejects the key of one
-- provider and serves the others. The world is the time, in milliseconds.
use simple_lcp.Prelude.{
  ℕ, suc, ◌+◌, String, ◌≡◌, ◌≢◌, ap, refl, true, false, not, ◌&&◌, none, some, List, [], ◌∷◌, ◌==◌,
  string_eq, arith, lookup, any, inr, map, All, if◌then◌else◌,
}
use simple_lcp.Breaker.Health.{Key, key_eq, Thresholds}
use simple_lcp.Breaker.Table.{list_table}
use simple_lcp.Breaker.Ops.{Breaker, is_available}
use simple_lcp.Breaker.Effects.{entry}
use simple_lcp.Pipeline.Message.{absent, value, text, Message}
use simple_lcp.Pipeline.Ids.{declares, answers}
use simple_lcp.Pipeline.Errors.{auth, classify, is_credits_error, lstrip, take_chars}
use simple_lcp.Pipeline.Retry.{call_with_retry}
use simple_lcp.Reasoning.Store.{ReasoningStore}
use simple_lcp.Reasoning.Presence.{HasReasoning}
use simple_lcp.Reasoning.Recalled.{restored, answer as remembered}
use simple_lcp.Pipeline.Normalize.{normalize_messages_for_cache}
use simple_lcp.Pipeline.Sanitize.{sanitize_messages}
use simple_lcp.Chain.Forward.{
  Step, Body, Config, Exchange, Reply, replied, http_error, raised, Upstream, forward_request,
}
use simple_lcp.Pipeline.Normalize.{rstrip, is_space}
use simple_lcp.Breaker.Reads.{unknown_key_is_free}
use simple_lcp.Chain.Prepare.{prepare, key_of, base_url_of, needs_vision}
use simple_lcp.Chain.Walk.{State, index_error, settle, send, walk_chain, chosen}
use simple_lcp.Chain.Accounts.{Accounts, walk_chain-Accounts}
use simple_lcp.Chain.Prepared.{sent_messages_sound}
use simple_lcp.Chain.Overrun.{long_chain_is_safe, single_pick_overruns}
use simple_lcp.Chain.Faults.{judged, IsOther, outcome_judges_own_key}

abbrev answer : Exchange → ℕ → Reply String × ℕ
answer e w = (
  if e.url == "https://closed/chat/completions"
      then http_error 401 "bad key"
      else replied "hello" 200,
  suc w,
)

abbrev pub upstream : Upstream
upstream = record {
  World = ℕ;
  Response = String;
  now = λ w. record { time = w; iso = "2026-01-01" };
  post = answer;
  sleep = λ d w. d + w;
  draw = λ w. 1000;
  loads = λ s. none;
  show = λ n. "401";
}

abbrev pub cfg : Config
cfg = record {
  api_base = λ p. if p == "closed" then "https://closed" else "https://open";
  supports_vision = λ m. true;
  supports_thinking = λ m. true;
  api_model = λ p m. m;
  api_key = λ p. "key";
  retry = record {
    max_attempts = 1;
    backoff_base = 1000;
    backoff_multiplier = 2;
    max_backoff = 8000;
    jitter = false;
  };
  read_timeout = 300;
}

abbrev pub closed : Step
closed = record { provider = "closed"; model = "m1"; base_url = none }

abbrev pub open_step : Step
open_step = record { provider = "open"; model = "m2"; base_url = none }

abbrev seed : Thresholds
seed = record {
  failures_degraded = 3;
  failures_dead = 6;
  degraded_cooldown_seconds = 30;
  dead_cooldown_seconds = 120;
}

abbrev question : List Message
question =
    record {
      role = value "user";
      content = value (text "hi");
      tool_calls = absent;
      tool_call_id = absent;
      reasoning_content = absent;
      name = absent;
      extra = [];
    }
    ∷ []

abbrev body : Body
body = record { model = "m"; messages = some question; tools = absent }

abbrev store : ReasoningStore
store = record { by_tool_call_id = []; stored_at = []; ttl = 3600; max_entries = 1000 }

abbrev pub breaker : Breaker list_table
breaker = record { config = seed; health = []; engine = none }

abbrev pub start : State list_table upstream cfg "l2" none
start = record { breaker = breaker; store = store; world = 0; body = body; errors = [] }

abbrev pub pair : List Step
pair = closed ∷ open_step ∷ []

walk_chain-Accounts_example :
    let (r, s') = walk_chain list_table upstream cfg "l2" none pair none start in
    Accounts list_table upstream cfg "l2" none
      (chosen list_table upstream cfg "l2" none pair none)
      start
      r
      s'
walk_chain-Accounts_example = walk_chain-Accounts list_table upstream cfg "l2" none pair none start

sent_messages_sound_example :
    (ns : List Message) × ((prepare cfg closed body 0 store).0.messages ≡ some ns)
    × ((i : String) → declares ns i ≡ (declares question i && answers question i))
    × ((i : String) → answers ns i ≡ (declares question i && answers question i))
    × (cfg.supports_thinking closed.model ≡ true
        → (ns
            ≡ map
                (restored (remembered store 0))
                (sanitize_messages (normalize_messages_for_cache question)))
          × All HasReasoning ns)
sent_messages_sound_example = sent_messages_sound cfg closed body 0 store question refl

outcome_judges_own_key_example :
    entry list_table
      (settle list_table upstream cfg "l2" none 2 0 closed
        (open_step ∷ [])
        (raised auth "bad key")
        start).1.breaker
      (key_of cfg "l2" open_step)
    ≡ (if key_of cfg "l2" closed == key_of cfg "l2" open_step
        then judged list_table upstream cfg "l2" none breaker
            (key_of cfg "l2" closed)
            (upstream.now 0)
            (raised auth "bad key")
        else entry list_table breaker (key_of cfg "l2" open_step))
outcome_judges_own_key_example =
    outcome_judges_own_key list_table upstream cfg "l2" none 2 0 closed (open_step ∷ [])
      (raised auth "bad key") start (key_of cfg "l2" open_step)

abbrev pub stranger : Key
stranger = record { provider = "far"; base_url = "https://far"; profile = "l2" }

pub far-IsOther : All (IsOther list_table upstream cfg "l2" none stranger) pair
unfolding key_of
far-IsOther = (
  λ e. ground (arith, ap (λ (k : Key). k.provider) e, string_eq.beq_iff "far" "closed"),
  (λ e. ground (arith, ap (λ (k : Key). k.provider) e, string_eq.beq_iff "far" "open"), tt),
)

question_has_no_image : (needs_vision start.body && not (cfg.supports_vision closed.model)) ≡ false
unfolding needs_vision
question_has_no_image = ground arith

available_at_first :
    is_available list_table breaker (key_of cfg "l2" closed) (upstream.now 0) ≡ (true, breaker)
unfolding lookup
available_at_first =
    (unknown_key_is_free list_table breaker (key_of cfg "l2" closed) (upstream.now 0) (inr refl)).0

closed_rejects :
    (send list_table upstream cfg "l2" none closed (prepare cfg closed body 0 store).0 0).0
    ≡ raised auth "Provider closed rejected auth: bad key"
unfolding send call_with_retry forward_request classify base_url_of is_credits_error any take_chars
    rstrip lstrip is_space
closed_rejects = refl

single_pick_overruns_example :
    (walk_chain list_table upstream cfg "l2" none pair (some (closed ∷ [])) start).0 ≡ index_error
single_pick_overruns_example =
    single_pick_overruns list_table upstream cfg "l2" none pair closed start breaker auth
      "Provider closed rejected auth: bad key" (omega arith) question_has_no_image
      available_at_first closed_rejects (λ e. cc)

long_chain_is_safe_example :
    (walk_chain list_table upstream cfg "l2" none pair none start).0 ≢ index_error
long_chain_is_safe_example =
    long_chain_is_safe list_table upstream cfg "l2" none pair none start (omega arith)
