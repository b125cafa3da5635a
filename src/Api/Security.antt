-- ===== src/Api/Security.antt =====
-- src/api/security.rs, and `track_request_metrics` of src/api.rs. The handlers behind the middleware
-- are a function `next` on the state that they share.
pub mod Keys
pub mod Guard
mod Tests
use mathlib.Core.Option.{Option, none, some}
use mathlib.Core.Option
use unlimited_ocr_server.Prelude.{
  ℕ, zero, suc, ◌+◌, Text, codes, text_eq, Bool, true, false, not, ◌&&◌, ◌||◌, ◌==◌, leb, ltb, List,
  [], ◌∷◌, length, get_elem?, max, any, trim, strip_prefix, is_empty, and_then, unwrap_or,
  if◌then◌else◌,
}
use unlimited_ocr_server.Prelude.Bits.{xor, or}
use unlimited_ocr_server.Prelude.Utf8.{as_bytes}
use unlimited_ocr_server.State.RateLimiter.{RateLimiter, RateLimitDecision, allowed, limited, check}
use unlimited_ocr_server.State.Metrics.{AppMetrics, record_http_request}
use unlimited_ocr_server.Api.Http.{Request, Response, ErrorResponse, error_body, to_str}

abbrev pub is_probe_path : Text → Bool
is_probe_path path = text_eq path (codes "/health") || text_eq path (codes "/ready")

-- `map(str::trim).filter(|value| !value.is_empty())`
abbrev pub trimmed : Text → Option Text
trimmed value = let t = trim value in if is_empty t then none else some t

unfoldable pub bearer_token : Request → Option Text
bearer_token request =
    and_then (and_then (and_then request.authorization to_str) (strip_prefix (codes "Bearer ")))
      trimmed

abbrev pub or_else {ℓ} : {A : Type ℓ} → Option A → Option A → Option A
or_else none other = other
or_else (some a) other = some a

unfoldable pub request_api_key : Request → Option Text
request_api_key request =
    or_else (and_then (and_then request.x_api_key to_str) trimmed) (bearer_token request)

-- The loop over `index..max_len`, `left` rounds long. `usize` has 64 bits.
unfoldable pub difference : (rounds index diff : ℕ) → (left right : List ℕ) → ℕ
difference zero index diff left right = diff
difference (suc rounds) index diff left right =
    let left_byte = unwrap_or (get_elem? left index) 0 in
    let right_byte = unwrap_or (get_elem? right index) 0 in
    difference rounds (index + 1) (or 64 diff (xor 8 left_byte right_byte)) left right

unfoldable pub constant_time_eq : List ℕ → List ℕ → Bool
constant_time_eq left right =
    difference (max (length left) (length right)) 0 (xor 64 (length left) (length right)) left right
    == 0

unfoldable pub api_key_allowed : Text → List Text → Bool
api_key_allowed presented configured =
    any (λ expected. constant_time_eq (as_bytes presented) (as_bytes expected)) configured

unfoldable pub json_error_response : ℕ → Text → Text → Response
json_error_response status code message = record {
  status = status;
  body = error_body (record { code = code; message = message });
  retry_after = none;
}

unfoldable pub too_many_requests : ℕ → Response
too_many_requests retry_after =
    record (json_error_response 429 (codes "rate_limited") (codes "request rate limit exceeded")) {
      retry_after = some retry_after;
    }

unfoldable pub unauthorized : Response
unauthorized = json_error_response 401 (codes "unauthorized") (codes "valid API key is required")

module _ {S : Type 0} where
  unfoldable pub rate_limit :
      (now : ℕ) (next : Request → RateLimiter × S → (RateLimiter × S) × Response)
      → Request
      → RateLimiter × S
      → (RateLimiter × S) × Response
  rate_limit now next request (l, s) =
      if is_probe_path request.path
      then next request (l, s)
      else (let (l', decision) = check l now in
          elim decision [
            | allowed ↦ next request (l', s)
            | limited retry_after ↦ ((l', s), too_many_requests retry_after)
          ])

  unfoldable pub require_api_key :
      List Text
      → (next : Request → RateLimiter × S → (RateLimiter × S) × Response) → Request
      → RateLimiter × S
      → (RateLimiter × S) × Response
  require_api_key api_keys next request state =
      if is_empty api_keys || is_probe_path request.path
      then next request state
      else elim (request_api_key request) [
        | none ↦ (state, unauthorized)
        | some key ↦
            if api_key_allowed key api_keys then next request state else (state, unauthorized)
      ]

  -- The order of the layers in `router`: the key is checked before the rate.
  unfoldable pub guarded :
      List Text
      → (now : ℕ) → (next : Request → RateLimiter × S → (RateLimiter × S) × Response) → Request
      → RateLimiter × S
      → (RateLimiter × S) × Response
  guarded api_keys now next = require_api_key api_keys (rate_limit now next)

-- `is_client_error() || is_server_error()`
abbrev pub is_error : ℕ → Bool
is_error status = leb 400 status && ltb status 600

unfoldable pub track_request_metrics : (elapsed_ms : ℕ) → Response → AppMetrics → AppMetrics
track_request_metrics elapsed_ms response m =
    record_http_request elapsed_ms (is_error response.status) m
