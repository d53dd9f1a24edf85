-- ===== src/Chain/Forward.antt =====
-- `forward_request` of src/api/request_pipeline.py. The HTTP exchange and the clock are a parameter:
-- a world that each exchange changes. What the configuration and the credential store answer is
-- read from a record.
use Prim.Native.String.{◌++◌}
use simple_lcp.Prelude.{
  ℕ, String, Bool, ◌&&◌, ◌||◌, Option, none, some, List, ◌==◌, string_eq, if◌then◌else◌,
}
use simple_lcp.Breaker.Health.{Now}
use simple_lcp.Pipeline.Message.{Field, Message}
use simple_lcp.Pipeline.Tools.{Tool}
use simple_lcp.Pipeline.Errors.{
  ErrorKind, timeout, rate_limit, auth, credits, config, Json, classify, take_chars, lstrip,
}
use simple_lcp.Pipeline.Normalize.{rstrip}
use simple_lcp.Pipeline.Retry.{RetryConfig}

-- {"provider", "model", "base_url"}
pub record Step : Type 0 where
  pub provider : String
  pub model : String
  pub base_url : Option String

pub record Body : Type 0 where
  pub model : String
  pub messages : Option (List Message)
  pub tools : Field (List Tool)

-- What is asked of `config`, the pricing plugins and the credential store.
pub record Config : Type 0 where
  pub api_base : String → String
  pub supports_vision : String → Bool
  pub supports_thinking : String → Bool
  pub api_model : String → String → String
  pub api_key : String → String
  pub retry : RetryConfig
  pub read_timeout : ℕ

pub record Exchange : Type 0 where
  pub url : String
  pub body : Body
  pub session_id : Option String
  pub authorization : Option String

-- What `urlopen` and the reads after it come to.
pub data Reply (R : Type 0) : Type 0 where
  replied : R → ℕ → Reply R
  http_error : ℕ → String → Reply R
  unreachable : String → Reply R
  timed_out : Reply R
  undecodable : Reply R

-- An exception that is no `LCPError` escapes the chain.
pub data Outcome (R : Type 0) : Type 0 where
  returned : R → ℕ → Outcome R
  raised : ErrorKind → String → Outcome R
  escaped : Outcome R

pub record Upstream : Type 1 where
  pub World : Type 0
  pub Response : Type 0
  pub now : World → Now
  pub post : Exchange → World → Reply Response × World
  pub sleep : ℕ → World → World
  pub draw : World → ℕ
  pub loads : String → Option Json
  pub show : ℕ → String

-- _provider_needs_key(name), src/api/setup.py
unfoldable pub provider_needs_key : String → Bool
provider_needs_key name = name == "deepseek" || (name == "opencode" || name == "commandcode")

module _ (U : Upstream) where
  error_message : ErrorKind → String → ℕ → String → String
  error_message credits p status body = "Provider " ++ p ++ " out of credits: " ++ body
  error_message auth p status body =
      let stated = rstrip (lstrip body) in
      "Provider "
      ++ p
      ++ " rejected auth: "
      ++ (if stated == "" then "HTTP " ++ U.show status else stated)
  error_message rate_limit p status body = "Provider " ++ p ++ " rate limited"
  error_message kind p status body = "Provider " ++ p ++ " HTTP " ++ U.show status ++ ": " ++ body

  raise_http : String → ℕ → String → Outcome U.Response
  unfolding error_message
  raise_http p status body =
      let kind = classify U.loads status body in raised kind (error_message kind p status body)

  outcome_of : Config → String → Reply U.Response → Outcome U.Response
  unfolding raise_http
  outcome_of cfg p (replied r status) = returned r status
  outcome_of cfg p (http_error status body) = raise_http p status (take_chars 500 body)
  outcome_of cfg p (unreachable reason) =
      raised timeout ("Provider " ++ p ++ " unreachable: " ++ reason)
  outcome_of cfg p timed_out =
      raised timeout
        ("Provider " ++ p ++ " read timed out after " ++ U.show cfg.read_timeout ++ "s")
  outcome_of cfg p undecodable = escaped

  bearer : String → Option String
  bearer key = if key == "" then none else some ("Bearer " ++ key)

  abbrev session_header : Option String → Option String
  session_header none = none
  session_header (some s) = if s == "" then none else some s

  exchange_of : Config → Step → String → Body → Option String → Exchange
  unfolding bearer
  exchange_of cfg step base_url body session_id = record {
    url = base_url ++ "/chat/completions";
    body = body;
    session_id = session_header session_id;
    authorization = bearer (cfg.api_key step.provider);
  }

  unfoldable pub forward_request :
      Config → Step → String → Body → Option String → U.World → Outcome U.Response × U.World
  unfolding outcome_of exchange_of
  forward_request cfg step base_url body session_id w =
      if cfg.api_key step.provider == "" && provider_needs_key step.provider
      then (
        raised config (
            "No API key found for provider '" ++ step.provider
            ++ "'. Add it in Models → Providers → Configuration."),
        w,
      )
      else (let (reply, w') = U.post (exchange_of cfg step base_url body session_id) w in
          (outcome_of cfg step.provider reply, w'))
