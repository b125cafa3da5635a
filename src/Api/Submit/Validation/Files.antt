-- ===== src/Api/Submit/Validation/Files.antt =====
-- Which local paths and which images src/api/submit/validation.rs accepts.
use unlimited_ocr_server.Prelude.{
  ℕ, ◌≡◌, ◌↔◌, ◌≤◌, refl, ap, ◌∙◌, ◌⊎◌, inl, inr, Text, true, not, ◌&&◌, ◌||◌, ltb, List, [], ◌∷◌,
  ◌++◌, Option, none, some, arith, Bool-cases, is_some,
}
use unlimited_ocr_server.Prelude.Membership.{In}
use unlimited_ocr_server.Types.{FilePath}
use unlimited_ocr_server.Config.{Config}
use unlimited_ocr_server.Jobs.Worker.{path_eq, path_starts_with, path_is_inside}
use unlimited_ocr_server.Jobs.Worker.Cleanup.{path_is_inside_iff}
use unlimited_ocr_server.Util.{Bytes, ImageFormat, image_format_content_type}
use unlimited_ocr_server.Api.Http.{ApiError, Result, ok, ◌>>=◌, Io, done, failed, map_err}
use unlimited_ocr_server.Api.Submit.Validation.{
  Decoder, is_under_root, ensure_local_path_allowed, validate_image_bytes, check_content_type,
  known_format, within_limits,
}
use unlimited_ocr_server.Api.Submit.Validation.Hosts.{>>-ok, ensure-ok}

-- A root that resolves to a directory above the path.
abbrev pub IsUnder : (FilePath → Io FilePath) → List FilePath → FilePath → Type 0
IsUnder canonicalize roots path =
    (root : FilePath) × In root roots
    × (directory : FilePath) × (canonicalize root ≡ done directory)
    × (name : Text) × (rest : FilePath) × (path ≡ directory ++ name ∷ rest)

inside_test :
    (path directory : FilePath)
    → ((path_starts_with path directory && not (path_eq path directory)) ≡ true)
      ↔ ((name : Text) × (rest : FilePath) × (path ≡ directory ++ name ∷ rest))
unfolding path_is_inside
inside_test path directory = path_is_inside_iff path directory

under_step :
    (canonicalize : FilePath → Io FilePath) (root : FilePath) (roots : List FilePath)
    (path : FilePath)
    → is_under_root canonicalize (root ∷ roots) path ≡ true
    → ((directory : FilePath) × (canonicalize root ≡ done directory)
        × ((path_starts_with path directory && not (path_eq path directory)) ≡ true))
      ⊎ (is_under_root canonicalize roots path ≡ true)
unfolding is_under_root
under_step canonicalize root roots path h = go (canonicalize root) refl h
  where
    go :
        (answer : Io FilePath)
        → canonicalize root ≡ answer
        → is_under_root canonicalize (root ∷ roots) path ≡ true
        → ((directory : FilePath) × (canonicalize root ≡ done directory)
            × ((path_starts_with path directory && not (path_eq path directory)) ≡ true))
          ⊎ (is_under_root canonicalize roots path ≡ true)
    go (failed e) at h = inr (ground (arith, at))
    go (done d) at h = elim (Bool-cases (path_starts_with path d && not (path_eq path d))) [
      | inl t ↦ inl (d, at, t)
      | inr f ↦ inr (ground (arith, at, f))
    ]

found_below :
    (canonicalize : FilePath → Io FilePath) (roots : List FilePath) (path : FilePath)
    → is_under_root canonicalize roots path ≡ true
    → IsUnder canonicalize roots path
unfolding is_under_root
found_below canonicalize [] path h = absurd (ground arith)
found_below canonicalize (root ∷ roots) path h = elim (under_step canonicalize root roots path h) [
  | inl (d, at, t) ↦
      let (name, rest, e) = (inside_test path d).0 t in (root, inl refl, d, at, name, rest, e)
  | inr later ↦
      let (r, m, d, at, name, rest, e) = found_below canonicalize roots path later in
      (r, inr m, d, at, name, rest, e)
]

here_under :
    (canonicalize : FilePath → Io FilePath) (root : FilePath) (roots : List FilePath)
    (path directory : FilePath)
    → canonicalize root ≡ done directory
    → (path_starts_with path directory && not (path_eq path directory)) ≡ true
    → is_under_root canonicalize (root ∷ roots) path ≡ true
unfolding is_under_root
here_under canonicalize root roots path directory at t = ground arith

later_under :
    (canonicalize : FilePath → Io FilePath) (root : FilePath) (roots : List FilePath)
    (path : FilePath)
    → is_under_root canonicalize roots path ≡ true
    → is_under_root canonicalize (root ∷ roots) path ≡ true
unfolding is_under_root
later_under canonicalize root roots path h = ground arith

below_found :
    (canonicalize : FilePath → Io FilePath) (roots : List FilePath) (path : FilePath)
    → IsUnder canonicalize roots path
    → is_under_root canonicalize roots path ≡ true
below_found canonicalize [] path (r, m, d, at, name, rest, e) = absurd m
below_found canonicalize (root ∷ roots) path (r, inl same, d, at, name, rest, e) =
    here_under canonicalize root roots path d (ap canonicalize same ∙ at)
      ((inside_test path d).1 (name, rest, e))
below_found canonicalize (root ∷ roots) path (r, inr m, d, at, name, rest, e) =
    later_under canonicalize root roots path
      (below_found canonicalize roots path (r, m, d, at, name, rest, e))

allowed_parts :
    (display : FilePath → Text) (canonicalize : FilePath → Io FilePath) (config : Config)
    (path : FilePath)
    → (ensure_local_path_allowed display canonicalize config path ≡ ok tt) ↔ (
        (config.allow_local_paths ≡ true)
        × (is_under_root canonicalize config.local_path_roots path ≡ true))
unfolding ensure_local_path_allowed
allowed_parts display canonicalize config path = ground arith

-- A local path is accepted exactly when local paths are allowed and it lies strictly below the
-- directory that one of the configured roots resolves to.
pub ensure_local_path_allowed_iff :
    (display : FilePath → Text) (canonicalize : FilePath → Io FilePath) (config : Config)
    (path : FilePath)
    → (ensure_local_path_allowed display canonicalize config path ≡ ok tt)
      ↔ ((config.allow_local_paths ≡ true) × IsUnder canonicalize config.local_path_roots path)
ensure_local_path_allowed_iff display canonicalize config path =
    let (there, back) = allowed_parts display canonicalize config path in
    (
      λ h.
          let (on, under) = there h in
          (on, found_below canonicalize config.local_path_roots path under),
      λ (on, under). back (on, below_found canonicalize config.local_path_roots path under),
    )

>>=-done :
    {A : Type 0} (answer : Io A) (e : Text → ApiError) (next : A → Result (Unit {0}))
    → (map_err answer e >>= next) ≡ ok tt
    → (a : A) × (answer ≡ done a) × (next a ≡ ok tt)
>>=-done (done a) e next h = (a, refl, h)
>>=-done (failed m) e next h = absurd (ground arith)

known_format-ok :
    (image : Decoder) (guess : Option ImageFormat)
    → known_format image guess ≡ ok tt
    → (format : ImageFormat) × (guess ≡ some format)
      × (is_some (image_format_content_type format) ≡ true)
known_format-ok image none h = absurd (ground arith)
known_format-ok image (some format) h = (format, refl, ensure-ok _ _ h)

within_limits-ok :
    (config : Config) (width height : ℕ)
    → within_limits config (width, height) ≡ ok tt
    → (width ≤ config.max_image_width) × (height ≤ config.max_image_height)
within_limits-ok config width height h =
    let test =
      ensure-ok (not (ltb config.max_image_width width || ltb config.max_image_height height)) _
        h in
    (ground arith, ground arith)

-- Bytes that pass as an image have a format that the server knows, and dimensions within the
-- configured limits.
pub validate_image_bytes-ok :
    (image : Decoder) (config : Config) (content_type : Option Text) (bytes : Bytes)
    → validate_image_bytes image config content_type bytes ≡ ok tt
    → ((format : ImageFormat) × (image.guess_format bytes ≡ some format)
        × (is_some (image_format_content_type format) ≡ true))
      × ((width height : ℕ) × (image.into_dimensions bytes ≡ done (width, height))
          × (width ≤ config.max_image_width)
          × (height ≤ config.max_image_height))
unfolding validate_image_bytes
validate_image_bytes-ok image config content_type bytes h =
    let (kind, rest) = >>-ok (check_content_type content_type) _ h in
    let (format, rest) = >>-ok (known_format image (image.guess_format bytes)) _ rest in
    let (identified, rest) = >>-ok (map_err (image.with_guessed_format bytes) _) _ rest in
    let ((width, height), size, fits) = >>=-done (image.into_dimensions bytes) _ _ rest in
    let (wide, high) = within_limits-ok config width height fits in
    (known_format-ok image (image.guess_format bytes) format, (width, height, size, wide, high))
