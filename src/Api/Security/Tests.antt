-- ===== src/Api/Security/Tests.antt =====
-- Requests with and without a key (src/api/security.rs).
use unlimited_ocr_server.Prelude.{
  some_injective, ℕ, ◌+◌, ◌≡◌, sym, ◌∙◌, trim, trim_end, trim_start, ◌↔◌, ◌<◌, refl, ◌⊎◌, Text,
  codes, true, none, some, List, [], ◌∷◌, All, arith,
}
use mathlib.Core.Path.{subst}
use unlimited_ocr_server.Prelude.Membership.{In}
use unlimited_ocr_server.Prelude.Utf8.{as_bytes}
use unlimited_ocr_server.State.RateLimiter.{RateLimiter, second}
use unlimited_ocr_server.Api.Http.{Request, Response, visible, other_body}
use unlimited_ocr_server.Api.Security.{
  api_key_allowed, request_api_key, bearer_token, rate_limit, guarded, unauthorized,
}
use unlimited_ocr_server.Api.Security.Keys.{IsAddressable, api_key_allowed_iff}
use unlimited_ocr_server.Api.Security.Guard.{IsAuthorized, guarded_outcome}

abbrev keys : List Text
keys = codes "k1" ∷ codes "k2" ∷ []

abbrev with_key : Request
with_key = record {
  path = codes "/jobs";
  x_api_key = none;
  authorization = some (visible (codes "Bearer k2 "));
}

abbrev limiter : RateLimiter
limiter = record { limit_per_minute = 1; state = record { started_at = 0; count = 0 } }

-- A handler that counts its calls.
abbrev counting : Request → RateLimiter × ℕ → (RateLimiter × ℕ) × Response
counting request (l, n) =
    ((l, n + 1), record { status = 200; body = other_body (codes "ok"); retry_after = none })

abbrev hi : List ℕ
hi = 104 ∷ 105 ∷ []

abbrev hi_zero : List ℕ
hi_zero = 104 ∷ 105 ∷ 0 ∷ []

addressable : (a b : ℕ) → a < 128 → b < 128 → IsAddressable (a ∷ b ∷ [])
unfolding as_bytes
addressable a b h k = ((ground arith, (ground arith, tt)), ground arith)

keys-IsAddressable : All IsAddressable keys
keys-IsAddressable = (
  addressable 107 49 (ground arith) (ground arith),
  (addressable 107 50 (ground arith) (ground arith), tt),
)

api_key_allowed_iff_example : (api_key_allowed (codes "k3") keys ≡ true) ↔ In (codes "k3") keys
api_key_allowed_iff_example =
    api_key_allowed_iff (codes "k3") keys (addressable 107 51 (ground arith) (ground arith))
      keys-IsAddressable

presented : request_api_key with_key ≡ some (codes "k2")
unfolding request_api_key bearer_token trim trim_end trim_start
presented = refl

key_of : (key : Text) → request_api_key with_key ≡ some key → IsAddressable key
key_of key e =
    subst IsAddressable (some_injective (sym presented ∙ e))
      (addressable 107 50 (ground arith) (ground arith))

guarded_outcome_example :
    (IsAuthorized keys with_key
      × (guarded keys second counting with_key (limiter, 0)
          ≡ rate_limit second counting with_key (limiter, 0)))
    ⊎ ((IsAuthorized keys with_key → ⊥)
        × (guarded keys second counting with_key (limiter, 0) ≡ ((limiter, 0), unauthorized)))
guarded_outcome_example =
    guarded_outcome keys second counting with_key limiter 0 refl keys-IsAddressable key_of
