-- ===== src/Api/Submit/Uploads.antt =====
-- Uploads of src/api/submit.rs: an image or a PDF that is saved in the images directory.
pub mod Deletable
mod Tests
use unlimited_ocr_server.Prelude.{
  ℕ, ◌==◌, Text, codes, decimal, is_empty, Bool, true, false, not, List, [], ◌∷◌, ◌++◌, length, map,
  Option, none, some, and_then, if◌then◌else◌,
}
use mathlib.Core.Option
use unlimited_ocr_server.Types.{
  Uuid, Time, FilePath, JobRecord, InputKind, upload, upload_pdf_page, local_pdf_page, local_path,
  queued,
}
use unlimited_ocr_server.Types.Task.{TaskSpec, from_text_input}
use unlimited_ocr_server.Config.{Config}
use unlimited_ocr_server.Util.{Bytes, guess_extension, image_format_content_type, is_pdf_content}
use unlimited_ocr_server.Pdf as Pdf
use unlimited_ocr_server.Pdf.{
  RenderedPdfPage, PdfRenderError, renderer_unavailable, inspect, too_many_pages, render, io,
  Poppler, render_pdf_pages,
}
use unlimited_ocr_server.Api.Http.{
  ApiError, bad_request, internal, Result, ok, err, ◌>>=◌, ◌>>◌, ensure, Io, done, failed, map_err,
}
use unlimited_ocr_server.Api.Submit.{PendingSubmission, image_record, pdf_records, cleanup_paths}
use unlimited_ocr_server.Api.Submit.Multipart.{UploadedFile, MultipartInferenceRequest}
use unlimited_ocr_server.Api.Submit.Validation.{
  Url, Decoder, validate_webhook_url, validate_image_bytes, ensure_local_path_allowed,
}
use unlimited_ocr_server.Api.Submit.Pages.{
  Write, saved, not_saved, Site, pdf_render_api_error, rendered, PdfRecordContext, page_record,
  read_rendered_page, page_records, page_records_from_rendered_pdf, join, after_write, written,
  image_job, output_stem, with_rendered, rendered_records, as_pdf,
}

-- The path of an upload, the files after the write, and whether it went well.
unfoldable pub save_uploaded_image :
    Site → Config → UploadedFile → List FilePath → List FilePath × Result FilePath
save_uploaded_image site config file images =
    let extension = guess_extension site.decoder.guess_format file.content_type file.bytes in
    let path = join config.images_dir (site.uuid_text site.id ++ codes "." ++ extension) in
    (
      after_write site.write path images,
      written site.write
            (λ e. internal (codes "failed to save uploaded image to " ++ site.display path))
          >> ok path,
    )

-- The temporary PDF is removed whatever comes of the rendering.
unfoldable pub uploaded_pdf_page_records :
    Site
    → Config
    → UploadedFile
    → TaskSpec
    → Option Text
    → List FilePath
    → List FilePath × Result (List JobRecord)
uploaded_pdf_page_records site config file task webhook_url images =
    let path = join config.images_dir (site.uuid_text site.id ++ codes ".pdf") in
    let images' = after_write site.write path images in
    elim (written site.write
      (λ e. internal (codes "failed to save uploaded PDF to " ++ site.display path))) [
        | err e ↦ (images', err e)
        | ok _ ↦
            rendered_records site config
              (record {
                input_kind = upload_pdf_page;
                source_path = none;
                document_filename = file.filename;
                task = task;
                webhook_url = webhook_url;
              })
              (cleanup_paths site.stuck (path ∷ []) (with_rendered site images'))
      ]

abbrev pub required_file : Option UploadedFile → Result UploadedFile
required_file none = err (bad_request (codes "multipart field `image` is required"))
required_file (some file) =
    if is_empty file.bytes then err (bad_request (codes "uploaded file is empty")) else ok file

abbrev pub uploaded_image :
    Site
    → Config
    → UploadedFile
    → TaskSpec
    → Option Text
    → List FilePath
    → List FilePath × Result PendingSubmission
uploaded_image site config file task webhook_url images =
    elim (validate_image_bytes site.decoder config file.content_type file.bytes) [
      | err e ↦ (images, err e)
      | ok _ ↦
          let (images', path) = save_uploaded_image site config file images in
          (
            images',
            path >>= λ path. ok (
                image_record (
                  image_job site path file.filename file.content_type file.bytes upload none task
                    webhook_url)),
          )
    ]

abbrev pub uploaded_checked :
    Site
    → Config
    → TaskSpec
    → Result (UploadedFile × Option Text)
    → List FilePath
    → List FilePath × Result PendingSubmission
uploaded_checked site config task (err e) images = (images, err e)
uploaded_checked site config task (ok (file, webhook_url)) images =
    if is_pdf_content file.content_type file.bytes
    then as_pdf (uploaded_pdf_page_records site config file task webhook_url images)
    else uploaded_image site config file task webhook_url images

unfoldable pub uploaded_pending_submission :
    Site
    → Config
    → MultipartInferenceRequest
    → List FilePath
    → List FilePath × Result PendingSubmission
uploaded_pending_submission site config request =
    uploaded_checked site config (from_text_input request.text_input) (do
      webhook_url ← validate_webhook_url site.parse_url config request.webhook_url
      file ← required_file request.file
      ok (file, webhook_url))
