-- ===== src/Pipeline/Errors.antt =====
-- How `forward_request` of src/api/request_pipeline.py turns an HTTP error into an exception, with
-- `_is_credits_error` and `_is_bare_4xx`; the exceptions are those of src/api/exceptions.py.
-- `lower` changes the ASCII letters only, which are all that the markers have; the JSON parser is a
-- parameter that says whether a text is an object, and with which keys.
use Prim.Native.Char.{code}
use simple_lcp.Prelude.{
  ℕ, zero, suc, ◌+◌, String, Bool, true, false, not, ◌&&◌, ◌||◌, Option, none, some, List, [], ◌∷◌,
  ◌==◌, string_eq, leb, ltb, nat_beq, any, contains, if◌then◌else◌,
}
use simple_lcp.Pipeline.Normalize.{is_space, rstrip}

-- The exceptions of the upstream call that the chain handles, by class.
pub data ErrorKind : Type 0 where
  timeout rate_limit auth credits bad_request internal config : ErrorKind

-- type(e).__name__
unfoldable pub class_name : ErrorKind → String
class_name timeout = "ProviderTimeoutError"
class_name rate_limit = "ProviderRateLimitError"
class_name auth = "ProviderAuthError"
class_name credits = "ProviderCreditsError"
class_name bad_request = "ProviderBadRequestError"
class_name internal = "ProviderInternalError"
class_name config = "ConfigError"

-- `status_code` of the class
unfoldable status_code : ErrorKind → ℕ
status_code timeout = 504
status_code rate_limit = 429
status_code auth = 502
status_code credits = 402
status_code bad_request = 400
status_code internal = 502
status_code config = 500

lower_code : ℕ → ℕ
lower_code c = if leb 65 c && leb c 90 then c + 32 else c

-- the text as lower-case code points
lower : String → List ℕ
unfolding lower_code
lower String.[] = []
lower (String.◌∷◌ c s) = lower_code (code c) ∷ lower s

begins : List ℕ → List ℕ → Bool
begins [] s = true
begins (c ∷ p) [] = false
begins (c ∷ p) (d ∷ s) = nat_beq c d && begins p s

-- marker in body
occurs : List ℕ → List ℕ → Bool
unfolding begins
occurs p [] = begins p []
occurs p (d ∷ s) = begins p (d ∷ s) || occurs p s

abbrev credits_markers : List String
credits_markers =
    "creditserror" ∷ "insufficient balance" ∷ "insufficient funds" ∷ "insufficient credits"
    ∷ "out of credits" ∷ "no credits" ∷ "billing" ∷ "payment required" ∷ []

unfoldable pub is_credits_error : String → ℕ → Bool
unfolding lower occurs
is_credits_error body status =
    let text = lower body in
    any (λ (m : String). occurs (lower m) text) credits_markers || nat_beq status 402

unfoldable pub lstrip : String → String
lstrip String.[] = String.[]
lstrip (String.◌∷◌ c s) = let rest = lstrip s in if is_space (code c) then rest else String.◌∷◌ c s

char_count : String → ℕ
char_count String.[] = 0
char_count (String.◌∷◌ c s) = suc (char_count s)

unfoldable pub take_chars : ℕ → String → String
take_chars zero s = String.[]
take_chars (suc n) String.[] = String.[]
take_chars (suc n) (String.◌∷◌ c s) = String.◌∷◌ c (take_chars n s)

-- What `json.loads` returns, as far as the code looks: an object with its keys, or something else.
pub data Json : Type 0 where
  object : List String → Json
  other : Json

bare_parsed : String → Option Json → Bool
unfolding char_count
bare_parsed body none = ltb (char_count body) 20
bare_parsed body (some (object keys)) = not (contains "error" keys || contains "message" keys)
bare_parsed body (some other) = false

module _ (loads : String → Option Json) where
  unfoldable pub is_bare_4xx : String → Bool
  unfolding lstrip bare_parsed
  is_bare_4xx error_body =
      let body = rstrip (lstrip error_body) in
      if body == "" then true else bare_parsed body (loads body)

  unfoldable pub classify : ℕ → String → ErrorKind
  classify status body =
      if is_credits_error body status
      then credits
      else if nat_beq status 401 || nat_beq status 403
      then auth
      else if nat_beq status 429
      then rate_limit
      else if leb 400 status && ltb status 500
      then if is_bare_4xx body then internal else bad_request
      else if leb 500 status
      then internal
      else auth
