-- ===== src/Api/Submit/Validation/Hosts.antt =====
-- Which URLs and paths src/api/submit/validation.rs accepts.
use mathlib.Core.List.{reverse, reverse-append, reverse-reverse}
use unlimited_ocr_server.Prelude.{
  some_injective, ℕ, ◌≡◌, refl, sym, ap, ◌∙◌, ◌⊎◌, inl, inr, Text, codes, text_eq, text_eq_iff,
  if◌then◌else◌, Bool, true, false, not, ◌&&◌, [], ◌∷◌, ◌++◌, Option, none, some, arith, Bool-cases,
  is_empty, trim, lowercase, is_some, ◌||◌,
}
use unlimited_ocr_server.Config.{Config}
use unlimited_ocr_server.Api.Http.{
  ApiError, Result, ok, err, ensure, ◌>>◌, ◌>>=◌, Io, done, failed, map_err,
}
use unlimited_ocr_server.Api.Submit.IpAddr.{
  IpAddr, parse_ip, read_ipv4_addr, read_ipv6_addr, read_number, read_groups,
}
use unlimited_ocr_server.Api.Submit.Validation.{
  Url, check_host, check_address, check_scheme, private_webhook_url_error,
  validate_public_webhook_host, validate_parsed, validate_webhook_url, is_local_name, skip_dots,
  trim_dots, ends_with, ip_is_private_or_local,
}

no_ip_in_brackets : (rest : Text) → parse_ip (b'[' ∷ rest) ≡ none
unfolding parse_ip read_ipv4_addr read_ipv6_addr read_number read_groups
no_ip_in_brackets rest = refl

lowercase-append : (s t : Text) → lowercase (s ++ t) ≡ lowercase s ++ lowercase t
lowercase-append [] t = refl
lowercase-append (c ∷ s) t = ground (arith, lowercase-append s t)

reverse_snoc : (s : Text) (c : ℕ) → reverse (s ++ c ∷ []) ≡ c ∷ reverse s
reverse_snoc s c = reverse-append s (c ∷ [])

trim_dots-bracket : (s : Text) → trim_dots (s ++ b']' ∷ []) ≡ s ++ b']' ∷ []
trim_dots-bracket s =
    ap (λ t. reverse (skip_dots t)) (reverse_snoc s b']')
    ∙ ap reverse (sym (reverse_snoc s b']'))
    ∙ reverse-reverse (s ++ b']' ∷ [])

ends_with-bracket : (s : Text) → ends_with (s ++ b']' ∷ []) (codes ".localhost") ≡ false
ends_with-bracket s = rw (reverse_snoc s b']') refl

lowered :
    (inner : Text)
    → lowercase (trim_dots (b'[' ∷ inner ++ b']' ∷ [])) ≡ b'[' ∷ lowercase inner ++ b']' ∷ []
lowered inner =
    ap lowercase (trim_dots-bracket (b'[' ∷ inner)) ∙ lowercase-append (b'[' ∷ inner) (b']' ∷ [])

no_local_name_in_brackets : (inner : Text) → is_local_name (b'[' ∷ inner ++ b']' ∷ []) ≡ false
unfolding is_local_name
no_local_name_in_brackets inner = rw (lowered inner) (ends_with-bracket (b'[' ∷ lowercase inner))

-- A host in square brackets, as `host_str` gives every IPv6 address, is never refused: it does not
-- parse as an address, and it is no local name.
pub validate_public_webhook_host-bracketed :
    (url : Url) (inner : Text)
    → url.host_str ≡ some (b'[' ∷ inner ++ b']' ∷ [])
    → validate_public_webhook_host url ≡ ok tt
unfolding validate_public_webhook_host
validate_public_webhook_host-bracketed url inner host =
    let bracketed = b'[' ∷ inner ++ b']' ∷ [] in
    ap check_host host
    ∙ ap (check_address bracketed) (no_ip_in_brackets (inner ++ b']' ∷ []))
    ∙ ap (λ local. ensure (not local) private_webhook_url_error) (no_local_name_in_brackets inner)

-- What a parsed URL is that is accepted where private targets are not.
pub record IsPublic (url : Url) : Type 0 where
  pub web_scheme : (url.scheme ≡ codes "http") ⊎ (url.scheme ≡ codes "https")
  pub no_user : url.username ≡ []
  pub no_password : url.password ≡ none
  pub no_fragment : url.fragment ≡ none
  pub public_host :
      (host : Text) × (url.host_str ≡ some host)
      × ((ip : IpAddr) → parse_ip host ≡ some ip → ip_is_private_or_local ip ≡ false)
      × (parse_ip host ≡ none → is_local_name host ≡ false)

pub ensure->>-ok :
    {A : Type 0} (test : Bool) (e : ApiError) (next : Result A) {a : A}
    → (ensure test e >> next) ≡ ok a
    → (test ≡ true) × (next ≡ ok a)
ensure->>-ok true e next h = (refl, h)
ensure->>-ok false e next h = absurd (ground arith)

pub >>-ok :
    {A : Type 0} (first : Result (Unit {0})) (next : Result A) {a : A}
    → (first >> next) ≡ ok a
    → (first ≡ ok tt) × (next ≡ ok a)
>>-ok (ok tt) next h = (refl, h)
>>-ok (err e) next h = absurd (ground arith)

pub ensure-ok : (test : Bool) (e : ApiError) → ensure test e ≡ ok tt → test ≡ true
ensure-ok true e h = refl
ensure-ok false e h = absurd (ground arith)

check_address-ok :
    (host : Text) (address : Option IpAddr)
    → check_address host address ≡ ok tt
    → ((ip : IpAddr) → address ≡ some ip → ip_is_private_or_local ip ≡ false)
      × (address ≡ none → is_local_name host ≡ false)
check_address-ok host (some ip) h =
    let public = ensure-ok (not (ip_is_private_or_local ip)) private_webhook_url_error h in
    (λ other e. ground (arith, public, some_injective e), λ e. absurd (ground arith))
check_address-ok host none h =
    let public = ensure-ok (not (is_local_name host)) private_webhook_url_error h in
    (λ other e. absurd (ground arith), λ e. ground (arith, public))

check_host-ok :
    (host_str : Option Text)
    → check_host host_str ≡ ok tt
    → (host : Text) × (host_str ≡ some host)
      × ((ip : IpAddr) → parse_ip host ≡ some ip → ip_is_private_or_local ip ≡ false)
      × (parse_ip host ≡ none → is_local_name host ≡ false)
check_host-ok none h = absurd (ground arith)
check_host-ok (some host) h =
    let (ip, name) = check_address-ok host (parse_ip host) h in (host, refl, ip, name)

scheme_of :
    (scheme : Text)
    → check_scheme scheme ≡ ok tt
    → (scheme ≡ codes "http") ⊎ (scheme ≡ codes "https")
scheme_of scheme h =
    let test = ensure-ok (text_eq scheme (codes "http") || text_eq scheme (codes "https")) _ h in
    elim (Bool-cases (text_eq scheme (codes "http"))) [
      | inl t ↦ inl ((text_eq_iff scheme (codes "http")).0 t)
      | inr f ↦ inr ((text_eq_iff scheme (codes "https")).0 (rw f at test))
    ]

empty_of : (text : Text) → is_empty text ≡ true → text ≡ []
empty_of [] h = refl
empty_of (c ∷ text) h = absurd (ground arith)

none_of : (o : Option Text) → is_some o ≡ false → o ≡ none
none_of none h = refl
none_of (some t) h = absurd (ground arith)

text_of : {A : Type 0} {a b : A} → ok a ≡ ok b → b ≡ a
text_of {a = a} e = sym (ap (λ r. elim r [ ok x ↦ x | err _ ↦ a ]) e)

validate_parsed-IsPublic :
    (config : Config) (url : Url) (accepted : Option Text)
    → config.allow_private_webhook_urls ≡ false
    → validate_parsed config url ≡ ok accepted
    → (accepted ≡ some url.text) × IsPublic url
unfolding validate_parsed validate_public_webhook_host
validate_parsed-IsPublic config url accepted closed e =
    let (scheme, rest) = >>-ok (check_scheme url.scheme) _ e in
    let (credentials, rest) =
      ensure->>-ok (is_empty url.username && not (is_some url.password)) _ _ rest in
    let (fragment, rest) = ensure->>-ok (not (is_some url.fragment)) _ _ rest in
    let (host, text) =
      >>-ok (if config.allow_private_webhook_urls then ok tt else validate_public_webhook_host url)
        _ rest in
    (
      text_of text,
      record {
        web_scheme = scheme_of url.scheme scheme;
        no_user = empty_of url.username (ground arith);
        no_password = none_of url.password (ground arith);
        no_fragment = none_of url.fragment (ground arith);
        public_host = check_host-ok url.host_str (rw closed at host);
      },
    )

ok_none-ok_some :
    {none_at : Result (Option Text)} {t : Text} → none_at ≡ ok none → none_at ≡ ok (some t) → ⊥
ok_none-ok_some a b = ground (arith, a, b)

parsed-IsPublic :
    (config : Config) (parsed : Io Url) (f : Text → ApiError) (accepted : Text)
    → config.allow_private_webhook_urls ≡ false
    → (map_err parsed f >>= validate_parsed config) ≡ ok (some accepted)
    → (url : Url) × (parsed ≡ done url) × (accepted ≡ url.text) × IsPublic url
parsed-IsPublic config (failed m) f accepted closed e = absurd (ground arith)
parsed-IsPublic config (done url) f accepted closed e =
    let (same, public) = validate_parsed-IsPublic config url (some accepted) closed e in
    (url, refl, some_injective same, public)

-- Where private targets are not allowed, an accepted webhook URL is one that the crate parses from
-- the trimmed text, with the scheme http or https, no credentials and no fragment, and a host that
-- neither parses as a private or local address nor is a local name.
pub validate_webhook_url-IsPublic :
    (parse_url : Text → Io Url) (config : Config) (webhook_url accepted : Text)
    → config.allow_private_webhook_urls ≡ false
    → validate_webhook_url parse_url config (some webhook_url) ≡ ok (some accepted)
    → (url : Url) × (parse_url (trim webhook_url) ≡ done url) × (accepted ≡ url.text) × IsPublic url
unfolding validate_webhook_url
validate_webhook_url-IsPublic parse_url config webhook_url accepted closed e =
    elim (Bool-cases (is_empty (trim webhook_url))) [
      | inl t ↦ absurd (ok_none-ok_some refl (rw t at e))
      | inr f ↦ parsed-IsPublic config (parse_url (trim webhook_url)) _ accepted closed (rw f at e)
    ]
