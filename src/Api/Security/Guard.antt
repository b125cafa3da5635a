-- ===== src/Api/Security/Guard.antt =====
-- Which requests the middleware of src/api/security.rs lets through.
use mathlib.Core.Path.{subst}
use unlimited_ocr_server.Prelude.{
  ℕ, ◌≡◌, ◌≢◌, ◌↔◌, refl, sym, ◌∙◌, ◌⊎◌, inl, inr, Text, true, false, none, some, List, All, arith,
  Bool-cases, Option-cases, ◌||◌, is_empty,
}
use unlimited_ocr_server.Prelude.Membership.{In}
use unlimited_ocr_server.State.RateLimiter.{RateLimiter}
use unlimited_ocr_server.Api.Http.{Request, Response}
use unlimited_ocr_server.Api.Security.{
  is_probe_path, request_api_key, api_key_allowed, unauthorized, rate_limit, require_api_key,
  guarded,
}
use unlimited_ocr_server.Api.Security.Keys.{IsAddressable, api_key_allowed_iff}

-- The request carries one of the keys.
abbrev pub IsAuthorized : List Text → Request → Type 0
IsAuthorized api_keys request =
    (key : Text) × (request_api_key request ≡ some key) × In key api_keys

some_ne_none : {k : Text} → some k ≢ none
some_ne_none e = cc

module _ {S : Type 0} (api_keys : List Text) (now : ℕ)
    (next : Request → RateLimiter × S → (RateLimiter × S) × Response) (request : Request)
    (l : RateLimiter) (s : S) where
  checked-some :
      (key : Text)
      → (is_empty api_keys || is_probe_path request.path) ≡ false
      → request_api_key request ≡ some key
      → ((api_key_allowed key api_keys ≡ true)
          × (guarded api_keys now next request (l, s) ≡ rate_limit now next request (l, s)))
        ⊎ ((api_key_allowed key api_keys ≡ false)
            × (guarded api_keys now next request (l, s) ≡ ((l, s), unauthorized)))
  unfolding guarded require_api_key
  checked-some key closed found = elim (Bool-cases (api_key_allowed key api_keys)) [
    | inl t ↦ inl (t, rw (closed, found, t) refl)
    | inr f ↦ inr (f, rw (closed, found, f) refl)
  ]

  checked-none :
      (is_empty api_keys || is_probe_path request.path) ≡ false
      → request_api_key request ≡ none
      → guarded api_keys now next request (l, s) ≡ ((l, s), unauthorized)
  unfolding guarded require_api_key
  checked-none closed absent = rw (closed, absent) refl

  no_key :
      (k key : Text)
      → request_api_key request ≡ some k
      → request_api_key request ≡ some key
      → (api_key_allowed key api_keys ≡ true) ↔ In key api_keys
      → api_key_allowed key api_keys ≡ false
      → In k api_keys
      → ⊥
  no_key k key there found same refused m =
      let one : some k ≡ some key = sym there ∙ found in
      let k=key : k ≡ key = ground arith in
      let ok = same.1 (subst (λ x. In x api_keys) k=key m) in ground arith

  -- With keys configured, a request outside the probe paths reaches the rate limiter if it carries
  -- one of them; else it is answered 401, and neither the handlers nor the limiter's count change.
  pub guarded_outcome :
      (is_empty api_keys || is_probe_path request.path) ≡ false
      → All IsAddressable api_keys
      → ((key : Text) → request_api_key request ≡ some key → IsAddressable key)
      → (IsAuthorized api_keys request
          × (guarded api_keys now next request (l, s) ≡ rate_limit now next request (l, s)))
        ⊎ ((IsAuthorized api_keys request → ⊥)
            × (guarded api_keys now next request (l, s) ≡ ((l, s), unauthorized)))
  guarded_outcome closed keys presented = elim (Option-cases (request_api_key request)) [
    | inl absent ↦
        inr (λ (k, found, m). some_ne_none (sym found ∙ absent), checked-none closed absent)
    | inr (key, found) ↦
        let same = api_key_allowed_iff key api_keys (presented key found) keys in
        elim (checked-some key closed found) [
          | inl (ok, out) ↦ inl ((key, found, same.0 ok), out)
          | inr (refused, out) ↦ inr (λ (k, there, m). no_key k key there found same refused m, out)
        ]
  ]
