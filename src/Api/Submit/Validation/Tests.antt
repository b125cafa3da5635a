-- ===== src/Api/Submit/Validation/Tests.antt =====
-- URLs, paths and images accepted and refused (src/api/submit/validation.rs).
use unlimited_ocr_server.Prelude.{
  ℕ, ◌≡◌, ◌≤◌, ◌↔◌, refl, codes, true, [], ◌∷◌, some, arith, trim, trim_start, trim_end, is_some,
}
use unlimited_ocr_server.Config.{Config}
use unlimited_ocr_server.Jobs.Samples.{config, images, image_of}
use unlimited_ocr_server.Util.{ImageFormat, image_format_content_type}
use unlimited_ocr_server.Api.Http.{ok, done}
use unlimited_ocr_server.Api.Submit.IpAddr.{Ipv4Addr, parse_ip, read_ipv4_addr, read_number}
use unlimited_ocr_server.Api.Submit.Validation.{
  Url, ipv4_is_private_or_local, validate_public_webhook_host, validate_webhook_url,
  validate_parsed, ensure_local_path_allowed, validate_image_bytes,
}
use unlimited_ocr_server.Api.Submit.Validation.Ranges.{
  IsReserved, to_u32, ipv4_is_private_or_local_iff,
}
use unlimited_ocr_server.Api.Submit.Validation.Hosts.{
  IsPublic, validate_public_webhook_host-bracketed, validate_webhook_url-IsPublic,
}
use unlimited_ocr_server.Api.Submit.Validation.Files.{
  IsUnder, ensure_local_path_allowed_iff, validate_image_bytes-ok,
}
use unlimited_ocr_server.Api.Submit.Samples.{url_to, parse_url, decoder}

abbrev router_address : Ipv4Addr
router_address = record { a = 192; b = 168; c = 0; d = 1 }

ipv4_is_private_or_local_iff_example :
    (ipv4_is_private_or_local router_address ≡ true) ↔ IsReserved (to_u32 router_address)
ipv4_is_private_or_local_iff_example =
    ipv4_is_private_or_local_iff router_address (ground arith) (ground arith) (ground arith)
      (ground arith)

-- The loopback address in brackets, which is not refused.
validate_public_webhook_host-bracketed_example :
    validate_public_webhook_host (url_to (codes "[::1]")) ≡ ok tt
validate_public_webhook_host-bracketed_example =
    validate_public_webhook_host-bracketed (url_to (codes "[::1]")) (codes "::1") refl

accepted_url :
    validate_webhook_url parse_url config (some (codes " https://8.8.8.8 "))
    ≡ ok (some (codes "https://8.8.8.8/"))
unfolding validate_webhook_url validate_parsed validate_public_webhook_host parse_ip read_ipv4_addr
    read_number ipv4_is_private_or_local trim trim_start trim_end
accepted_url = refl

validate_webhook_url-IsPublic_example :
    (url : Url) × (parse_url (trim (codes " https://8.8.8.8 ")) ≡ done url)
    × (codes "https://8.8.8.8/" ≡ url.text)
    × IsPublic url
validate_webhook_url-IsPublic_example =
    validate_webhook_url-IsPublic parse_url config (codes " https://8.8.8.8 ")
      (codes "https://8.8.8.8/") refl accepted_url

abbrev with_local : Config
with_local = record config { allow_local_paths = true; local_path_roots = images ∷ [] }

ensure_local_path_allowed_iff_example :
    (ensure_local_path_allowed (λ p. []) done with_local (image_of 1) ≡ ok tt) ↔ (
      (with_local.allow_local_paths ≡ true) × IsUnder done with_local.local_path_roots (image_of 1))
ensure_local_path_allowed_iff_example =
    ensure_local_path_allowed_iff (λ p. []) done with_local (image_of 1)

valid_image :
    validate_image_bytes decoder config (some (codes "image/png")) (codes "png-bytes") ≡ ok tt
unfolding validate_image_bytes
valid_image = refl

validate_image_bytes-ok_example :
    ((format : ImageFormat) × (decoder.guess_format (codes "png-bytes") ≡ some format)
      × (is_some (image_format_content_type format) ≡ true))
    × ((width height : ℕ) × (decoder.into_dimensions (codes "png-bytes") ≡ done (width, height))
        × (width ≤ config.max_image_width)
        × (height ≤ config.max_image_height))
validate_image_bytes-ok_example =
    validate_image_bytes-ok decoder config (some (codes "image/png")) (codes "png-bytes")
      valid_image
