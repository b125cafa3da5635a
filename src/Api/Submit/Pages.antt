-- ===== src/Api/Submit/Pages.antt =====
-- The records that src/api/submit.rs makes of the rendered pages of a PDF, and of an image. `Site` is
-- what the crates, the clock and the file system answer; a file that is written joins `images`.
pub mod Records
use unlimited_ocr_server.Prelude.{
  ℕ, ◌==◌, Text, codes, decimal, is_empty, Bool, true, false, not, List, [], ◌∷◌, ◌++◌, length, map,
  Option, none, some, and_then, if◌then◌else◌,
}
use mathlib.Core.Option
use unlimited_ocr_server.Types.{
  Uuid, Time, FilePath, JobRecord, InputKind, upload, upload_pdf_page, local_pdf_page, local_path,
  queued,
}
use unlimited_ocr_server.Types.Task.{TaskSpec, from_text_input}
use unlimited_ocr_server.Config.{Config}
use unlimited_ocr_server.Util.{Bytes, guess_extension, image_format_content_type, is_pdf_content}
use unlimited_ocr_server.Pdf as Pdf
use unlimited_ocr_server.Pdf.{
  RenderedPdfPage, PdfRenderError, renderer_unavailable, inspect, too_many_pages, render, io,
  Poppler, render_pdf_pages,
}
use unlimited_ocr_server.Api.Http.{
  ApiError, bad_request, internal, Result, ok, err, ◌>>=◌, ◌>>◌, ensure, Io, done, failed, map_err,
}
use unlimited_ocr_server.Api.Submit.{PendingSubmission, image_record, pdf_records, cleanup_paths}
use unlimited_ocr_server.Api.Submit.Multipart.{UploadedFile, MultipartInferenceRequest}
use unlimited_ocr_server.Api.Submit.Validation.{
  Url, Decoder, validate_webhook_url, validate_image_bytes, ensure_local_path_allowed,
}

-- The outcome of writing a file: the error, and whether a part of the file is left.
pub data Write : Type 0 where
  saved : Write
  not_saved : (error : Text) (left_behind : Bool) → Write

pub record Site : Type 0 where
  pub parse_url : Text → Io Url
  pub decoder : Decoder
  pub sha256_hex : Bytes → Text
  pub uuid_text : Uuid → Text
  pub display : FilePath → Text
  pub file_name : FilePath → Option Text
  pub pdf_error_text : PdfRenderError → Text
  pub id : Uuid  -- the image's id, or the batch's
  pub page_id : ℕ → Uuid
  pub now : Time
  pub page_now : ℕ → Time
  pub write : Write
  pub poppler : Poppler
  pub rendered_files : List FilePath  -- what `pdftoppm` leaves in the images directory
  pub read : FilePath → Io Bytes
  pub canonicalize : FilePath → Io FilePath
  pub is_file : FilePath → Io Bool
  pub stuck : FilePath → Bool

unfoldable pub pdf_render_api_error : Site → PdfRenderError → ApiError
pdf_render_api_error site renderer_unavailable = internal (
    codes "PDF processing requires poppler-utils (`pdfinfo` and `pdftoppm`): "
    ++ site.pdf_error_text renderer_unavailable)
pdf_render_api_error site (io e) = internal (
    codes "PDF processing requires poppler-utils (`pdfinfo` and `pdftoppm`): "
    ++ site.pdf_error_text (io e))
pdf_render_api_error site (inspect e) = bad_request (site.pdf_error_text (inspect e))
pdf_render_api_error site (too_many_pages n m) =
    bad_request (site.pdf_error_text (too_many_pages n m))
pdf_render_api_error site (render e) = bad_request (site.pdf_error_text (render e))

abbrev pub rendered : Site → Pdf.Result (List RenderedPdfPage) → Result (List RenderedPdfPage)
rendered site (Pdf.ok pages) = ok pages
rendered site (Pdf.err e) = err (pdf_render_api_error site e)

pub record PdfRecordContext : Type 0 where
  pub input_kind : InputKind
  pub source_path : Option FilePath
  pub document_filename : Option Text
  pub task : TaskSpec
  pub webhook_url : Option Text

unfoldable pub page_record : Site → PdfRecordContext → ℕ → RenderedPdfPage → Bytes → JobRecord
page_record site context page_count page bytes = record {
  id = site.page_id page.page_number;
  status = queued;
  created_at = site.page_now page.page_number;
  updated_at = site.page_now page.page_number;
  image_path = page.image_path;
  filename =
      Option.map (λ filename. filename ++ codes "#page=" ++ decimal page.page_number)
        context.document_filename;
  content_type = some (codes "image/png");
  image_sha256 = site.sha256_hex bytes;
  image_bytes = length bytes;
  input_kind = context.input_kind;
  source_path = context.source_path;
  document_filename = context.document_filename;
  document_page = some page.page_number;
  document_pages = some page_count;
  text_input = context.task.text_input;
  webhook_url = context.webhook_url;
  result = none;
  error = none;
}

unfoldable pub read_rendered_page : Site → FilePath → Result Bytes
read_rendered_page site path = map_err (site.read path) (λ e.
    bad_request (codes "failed to read rendered PDF page " ++ site.display path ++ codes ": " ++ e))

-- The loop over the pages, up to the first error.
unfoldable pub page_records :
    Site
    → Config
    → PdfRecordContext
    → (page_count : ℕ) → List RenderedPdfPage
    → Result (List JobRecord)
page_records site config context page_count [] = ok []
page_records site config context page_count (page ∷ pages) =
    let later = page_records site config context page_count pages in
    (do
      bytes ← read_rendered_page site page.image_path
      validate_image_bytes site.decoder config (some (codes "image/png")) bytes
      records ← later
      ok (page_record site context page_count page bytes ∷ records))

-- On an error, the files of all pages are removed.
unfoldable pub page_records_from_rendered_pdf :
    Site
    → Config
    → PdfRecordContext
    → List RenderedPdfPage
    → List FilePath
    → List FilePath × Result (List JobRecord)
page_records_from_rendered_pdf site config context pages images =
    elim (page_records site config context (length pages) pages) [
      | ok records ↦ (images, ok records)
      | err e ↦ (cleanup_paths site.stuck (map (λ p. p.image_path) pages) images, err e)
    ]

abbrev pub join : FilePath → Text → FilePath
join directory name = directory ++ name ∷ []

abbrev pub after_write : Write → FilePath → List FilePath → List FilePath
after_write saved path images = images ++ path ∷ []
after_write (not_saved e true) path images = images ++ path ∷ []
after_write (not_saved e false) path images = images

abbrev pub written : Write → (Text → ApiError) → Result (Unit {0})
written saved f = ok tt
written (not_saved e _) f = err (f e)

unfoldable pub image_job :
    Site
    → FilePath
    → Option Text
    → Option Text
    → Bytes
    → InputKind
    → Option FilePath
    → TaskSpec
    → Option Text
    → JobRecord
image_job site image_path filename content_type bytes kind source_path task webhook_url = record {
  id = site.id;
  status = queued;
  created_at = site.now;
  updated_at = site.now;
  image_path = image_path;
  filename = filename;
  content_type = content_type;
  image_sha256 = site.sha256_hex bytes;
  image_bytes = length bytes;
  input_kind = kind;
  source_path = source_path;
  document_filename = none;
  document_page = none;
  document_pages = none;
  text_input = task.text_input;
  webhook_url = webhook_url;
  result = none;
  error = none;
}

abbrev pub output_stem : Site → Text
output_stem site = site.uuid_text site.id ++ codes "-page"

-- The record's files join `images`, also when fewer come out than the PDF has pages.
abbrev pub with_rendered : Site → List FilePath → List FilePath
with_rendered site images = images ++ site.rendered_files

-- What becomes of a rendering, with the files that are then there.
unfoldable pub rendered_records :
    Site → Config → PdfRecordContext → List FilePath → List FilePath × Result (List JobRecord)
rendered_records site config context images =
    elim (rendered site (render_pdf_pages site.poppler (output_stem site) config.max_pdf_pages)) [
      | err e ↦ (images, err e)
      | ok pages ↦ page_records_from_rendered_pdf site config context pages images
    ]

abbrev pub as_pdf :
    List FilePath × Result (List JobRecord) → List FilePath × Result PendingSubmission
as_pdf (images, result) = (images, result >>= λ records. ok (pdf_records records))
