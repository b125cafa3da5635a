-- ===== src/Api/Submit/Validation.antt =====
-- src/api/submit/validation.rs. The URL parser of `reqwest` and the decoder of `image` are
-- parameters.
pub mod Hosts
pub mod Files
pub mod Ranges
mod Tests
use mathlib.Core.Option
use mathlib.Core.List.{reverse}
use unlimited_ocr_server.Prelude.{
  ℕ, Text, codes, text_eq, decimal, trim, is_empty, strip_prefix, lowercase, Bool, true, false, not,
  ◌&&◌, ◌||◌, ◌==◌, ltb, is_some, List, [], ◌∷◌, ◌++◌, Option, none, some, if◌then◌else◌,
}
use unlimited_ocr_server.Types.{FilePath}
use unlimited_ocr_server.Config.{Config}
use unlimited_ocr_server.State.Workers.{WorkerPoolState, is_ready}
use unlimited_ocr_server.Jobs.Worker.{path_eq, path_starts_with}
use unlimited_ocr_server.Util.{Bytes, ImageFormat, image_format_content_type, starts_with}
use unlimited_ocr_server.Api.Http.{
  ApiError, bad_request, forbidden, service_unavailable, Result, ok, err, ◌>>=◌, ◌>>◌, ensure, Io,
  done, failed, map_err,
}
use unlimited_ocr_server.Api.Submit.IpAddr.{
  Ipv4Addr, Ipv6Addr, IpAddr, v4, v6, parse_ip, is_private, is_loopback, is_link_local,
  is_broadcast, is_documentation, is_unspecified, is_loopback6, is_unspecified6, is_unique_local,
  is_unicast_link_local, to_ipv4_mapped,
}

pub record Url : Type 0 where
  pub scheme : Text
  pub username : Text
  pub password : Option Text
  pub fragment : Option Text
  pub host_str : Option Text
  pub text : Text

abbrev pub private_webhook_url_error : ApiError
private_webhook_url_error = bad_request (
    codes
      "webhook_url targets a private or local address; set allow_private_webhook_urls for trusted deployments")

unfoldable pub ipv4_is_private_or_local : Ipv4Addr → Bool
ipv4_is_private_or_local ip =
    is_private ip
    || is_loopback ip
    || is_link_local ip
    || is_broadcast ip
    || is_documentation ip
    || is_unspecified ip
    || ip.a == 0

abbrev mapped_is_private : Option Ipv4Addr → Bool
mapped_is_private none = false
mapped_is_private (some ip) = ipv4_is_private_or_local ip

unfoldable pub ipv6_is_private_or_local : Ipv6Addr → Bool
ipv6_is_private_or_local ip =
    is_loopback6 ip
    || is_unspecified6 ip
    || is_unique_local ip
    || is_unicast_link_local ip
    || mapped_is_private (to_ipv4_mapped ip)

abbrev pub ip_is_private_or_local : IpAddr → Bool
ip_is_private_or_local (v4 ip) = ipv4_is_private_or_local ip
ip_is_private_or_local (v6 ip) = ipv6_is_private_or_local ip

-- `trim_end_matches('.')`
abbrev pub skip_dots : Text → Text
skip_dots [] = []
skip_dots (c ∷ s) = let rest = skip_dots s in if c == b'.' then rest else c ∷ s

abbrev pub trim_dots : Text → Text
trim_dots s = reverse (skip_dots (reverse s))

abbrev pub ends_with : Text → Text → Bool
ends_with s suffix = is_some (strip_prefix (reverse suffix) (reverse s))

unfoldable pub is_local_name : Text → Bool
is_local_name host =
    let name = lowercase (trim_dots host) in
    text_eq name (codes "localhost") || ends_with name (codes ".localhost")

abbrev pub check_address : Text → Option IpAddr → Result (Unit {0})
check_address host (some ip) = ensure (not (ip_is_private_or_local ip)) private_webhook_url_error
check_address host none = ensure (not (is_local_name host)) private_webhook_url_error

abbrev pub check_host : Option Text → Result (Unit {0})
check_host none = err (bad_request (codes "webhook_url must include a host"))
check_host (some host) = check_address host (parse_ip host)

unfoldable pub validate_public_webhook_host : Url → Result (Unit {0})
validate_public_webhook_host url = check_host url.host_str

abbrev pub check_scheme : Text → Result (Unit {0})
check_scheme scheme = ensure (text_eq scheme (codes "http") || text_eq scheme (codes "https")) (
    bad_request
      (codes "unsupported webhook_url scheme `" ++ scheme ++ codes "`; expected http or https"))

-- The URL that the crate parses.
unfoldable pub validate_parsed : Config → Url → Result (Option Text)
validate_parsed config url = do
  check_scheme url.scheme
  ensure (is_empty url.username && not (is_some url.password))
      (bad_request (codes "webhook_url must not include credentials"))
  ensure (not (is_some url.fragment))
      (bad_request (codes "webhook_url must not include a fragment"))
  if config.allow_private_webhook_urls then ok tt else validate_public_webhook_host url
  ok (some url.text)

unfoldable pub validate_webhook_url :
    (parse_url : Text → Io Url) → Config → Option Text → Result (Option Text)
validate_webhook_url parse_url config none = ok none
validate_webhook_url parse_url config (some webhook_url) =
    let trimmed = trim webhook_url in
    if is_empty trimmed
    then ok none
    else map_err (parse_url trimmed) (λ e. bad_request (codes "invalid webhook_url: " ++ e))
      >>= validate_parsed config

unfoldable pub ensure_workers_ready : WorkerPoolState → Result (Unit {0})
ensure_workers_ready workers =
    ensure (is_ready workers) (service_unavailable (codes "model workers are not ready"))

-- The loop over the roots; a root that does not resolve is skipped.
unfoldable pub is_under_root :
    (canonicalize : FilePath → Io FilePath) → List FilePath → FilePath → Bool
is_under_root canonicalize [] path = false
is_under_root canonicalize (root ∷ roots) path =
    let later = is_under_root canonicalize roots path in
    elim (canonicalize root) [
      | failed e ↦ later
      | done r ↦ if path_starts_with path r && not (path_eq path r) then true else later
    ]

unfoldable pub ensure_local_path_allowed :
    (display : FilePath → Text) (canonicalize : FilePath → Io FilePath)
    → Config
    → FilePath
    → Result (Unit {0})
ensure_local_path_allowed display canonicalize config path =
    if config.allow_local_paths
    then ensure (is_under_root canonicalize config.local_path_roots path)
        (forbidden (codes "image path is outside configured local path roots: " ++ display path))
    else err (forbidden (codes "local path inference is disabled"))

-- What the crate `image` reads from the first bytes of a file.
pub record Decoder : Type 0 where
  pub guess_format : Bytes → Option ImageFormat
  pub with_guessed_format : Bytes → Io (Unit {0})
  pub into_dimensions : Bytes → Io (ℕ × ℕ)
  pub format_name : ImageFormat → Text

abbrev pub check_content_type : Option Text → Result (Unit {0})
check_content_type none = ok tt
check_content_type (some t) =
    ensure (starts_with t (codes "image/"))
      (bad_request (codes "unsupported content type `" ++ t ++ codes "`; expected an image"))

abbrev pub known_format : Decoder → Option ImageFormat → Result (Unit {0})
known_format image none = err (bad_request (codes "unsupported or invalid image format"))
known_format image (some format) =
    ensure (is_some (image_format_content_type format))
      (bad_request (codes "unsupported image format: " ++ image.format_name format))

abbrev pub within_limits : Config → ℕ × ℕ → Result (Unit {0})
within_limits config (width, height) =
    ensure (not (ltb config.max_image_width width || ltb config.max_image_height height)) (
      bad_request (
        codes "image dimensions "
        ++ decimal width
        ++ codes "x"
        ++ decimal height
        ++ codes " exceed configured limit "
        ++ decimal config.max_image_width
        ++ codes "x"
        ++ decimal config.max_image_height))

unfoldable pub validate_image_bytes : Decoder → Config → Option Text → Bytes → Result (Unit {0})
validate_image_bytes image config content_type bytes = do
  check_content_type content_type
  known_format image (image.guess_format bytes)
  map_err (image.with_guessed_format bytes)
      (λ e. bad_request (codes "failed to identify image format: " ++ e))
  size ←
      map_err (image.into_dimensions bytes)
        (λ e. bad_request (codes "failed to read image dimensions: " ++ e))
  within_limits config size
