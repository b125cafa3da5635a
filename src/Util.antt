-- ===== src/Util.antt =====
-- The content types and extensions of src/util.rs, and `is_pdf_content` of src/pdf.rs.
use unlimited_ocr_server.Prelude.{
  ℕ, Text, codes, text_eq, Bool, false, ◌||◌, List, Option, none, some, and_then, unwrap_or,
  strip_prefix, is_some, if◌then◌else◌,
}

abbrev pub Bytes : Type 0
Bytes = List ℕ

-- The formats of the crate `image` that the code names; `other_format` is any other one.
pub data ImageFormat : Type 0 where
  png jpeg webp bmp tiff other_format : ImageFormat

abbrev pub image_format_content_type : ImageFormat → Option Text
image_format_content_type png = some (codes "image/png")
image_format_content_type jpeg = some (codes "image/jpeg")
image_format_content_type webp = some (codes "image/webp")
image_format_content_type bmp = some (codes "image/bmp")
image_format_content_type tiff = some (codes "image/tiff")
image_format_content_type other_format = none

abbrev pub image_format_extension : ImageFormat → Option Text
image_format_extension png = some (codes "png")
image_format_extension jpeg = some (codes "jpg")
image_format_extension webp = some (codes "webp")
image_format_extension bmp = some (codes "bmp")
image_format_extension tiff = some (codes "tiff")
image_format_extension other_format = none

abbrev pub starts_with : Text → Text → Bool
starts_with text prefix = is_some (strip_prefix prefix text)

abbrev pub is_text : Option Text → Text → Bool
is_text none text = false
is_text (some t) text = text_eq t text

unfoldable pub is_pdf_content : Option Text → Bytes → Bool
is_pdf_content content_type bytes =
    is_text content_type (codes "application/pdf") || starts_with bytes (codes "%PDF-")

-- `guess_format` is the crate's.
unfoldable pub guess_extension :
    (guess_format : Bytes → Option ImageFormat) → Option Text → Bytes → Text
guess_extension guess_format content_type bytes =
    if is_text content_type (codes "application/pdf")
    then codes "pdf"
    else if is_text content_type (codes "image/png")
    then codes "png"
    else if is_text content_type (codes "image/jpeg")
    then codes "jpg"
    else if is_text content_type (codes "image/webp")
    then codes "webp"
    else if is_text content_type (codes "image/bmp")
    then codes "bmp"
    else if is_text content_type (codes "image/tiff")
    then codes "tiff"
    else if starts_with bytes (codes "%PDF-")
    then codes "pdf"
    else unwrap_or (and_then (guess_format bytes) image_format_extension) (codes "img")
