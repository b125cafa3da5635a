-- ===== src/Api/Submit/Local.antt =====
-- Local files of src/api/submit.rs: an image or a PDF below one of the configured roots.
use unlimited_ocr_server.Prelude.{
  Text, codes, is_empty, Bool, not, List, ◌++◌, Option, none, some, and_then, if◌then◌else◌,
}
use unlimited_ocr_server.Types.{FilePath, JobRecord, local_pdf_page, local_path}
use unlimited_ocr_server.Types.Task.{TaskSpec, from_text_input}
use unlimited_ocr_server.Config.{Config}
use unlimited_ocr_server.Util.{Bytes, image_format_content_type, is_pdf_content}
use unlimited_ocr_server.Api.Http.{bad_request, Result, ok, err, ◌>>=◌, ◌>>◌, ensure, map_err}
use unlimited_ocr_server.Api.Submit.{PendingSubmission, image_record}
use unlimited_ocr_server.Api.Submit.Validation.{
  validate_webhook_url, validate_image_bytes, ensure_local_path_allowed,
}
use unlimited_ocr_server.Api.Submit.Pages.{Site, image_job, with_rendered, rendered_records, as_pdf}

unfoldable pub local_pdf_page_records :
    Site
    → Config
    → FilePath
    → TaskSpec
    → Option Text
    → List FilePath
    → List FilePath × Result (List JobRecord)
local_pdf_page_records site config path task webhook_url images =
    rendered_records site config
      (record {
        input_kind = local_pdf_page;
        source_path = some path;
        document_filename = site.file_name path;
        task = task;
        webhook_url = webhook_url;
      })
      (with_rendered site images)

abbrev pub check_is_file : Bool → Text → Result (Unit {0})
check_is_file is_file shown =
    ensure is_file (bad_request (codes "image path is not a regular file: " ++ shown))

unfoldable pub validated_local_image_path : Site → Config → FilePath → Result FilePath
validated_local_image_path site config requested = do
  ensure (not (is_empty requested)) (bad_request (codes "`image_path` is required"))
  path ← map_err (site.canonicalize requested) (λ e.
      bad_request
        (codes "failed to resolve image path " ++ site.display requested ++ codes ": " ++ e))
  ensure_local_path_allowed site.display site.canonicalize config path
  is_file ← map_err (site.is_file path) (λ e.
      bad_request (codes "failed to inspect image path " ++ site.display path ++ codes ": " ++ e))
  check_is_file is_file (site.display path)
  ok path

unfoldable pub read_local_image : Site → FilePath → Result Bytes
read_local_image site path = do
  bytes ← map_err (site.read path) (λ e.
      bad_request (codes "failed to read image path " ++ site.display path ++ codes ": " ++ e))
  ensure (not (is_empty bytes)) (bad_request (codes "local image file is empty"))
  ok bytes

unfoldable pub local_image :
    Site → Config → FilePath → Bytes → TaskSpec → Option Text → Result PendingSubmission
local_image site config path bytes task webhook_url =
    let content_type = and_then (site.decoder.guess_format bytes) image_format_content_type in
    (do
      validate_image_bytes site.decoder config content_type bytes
      ok (
          image_record (
            image_job site path (site.file_name path) content_type bytes local_path (some path) task
              webhook_url)))

unfoldable pub local_path_pending_submission :
    Site
    → Config
    → (image_path : FilePath) (text_input webhook_url : Option Text) → List FilePath
    → List FilePath × Result PendingSubmission
local_path_pending_submission site config requested text_input webhook_url images =
    let checked : Result (FilePath × Bytes × Option Text) = (do
      path ← validated_local_image_path site config requested
      bytes ← read_local_image site path
      url ← validate_webhook_url site.parse_url config webhook_url
      ok (path, bytes, url)) in
    elim checked [
      | err e ↦ (images, err e)
      | ok (path, bytes, url) ↦
          let task = from_text_input text_input in
          if is_pdf_content none bytes
          then as_pdf (local_pdf_page_records site config path task url images)
          else (images, local_image site config path bytes task url)
    ]
