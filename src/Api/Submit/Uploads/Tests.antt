-- ===== src/Api/Submit/Uploads/Tests.antt =====
-- Records of an upload and of PDF pages (src/api/submit.rs).
use unlimited_ocr_server.Prelude.{
  ◌+◌, ◌≡◌, refl, codes, true, false, List, [], ◌∷◌, ◌++◌, map, some, none, trim, trim_start,
  trim_end,
}
use unlimited_ocr_server.Prelude.Membership.{In}
use unlimited_ocr_server.Types.{FilePath, JobRecord, upload, upload_pdf_page}
use unlimited_ocr_server.Types.Task.{from_text_input, normalize_optional_text}
use unlimited_ocr_server.Jobs.Worker.{finish_job}
use unlimited_ocr_server.Jobs.Worker
use unlimited_ocr_server.Jobs.Map.{get}
use unlimited_ocr_server.Jobs.Server.{Server}
use unlimited_ocr_server.Jobs.Samples.{
  config, images, one_slot, flaky, patient, finishing, server, image_of, metadata,
}
use unlimited_ocr_server.Util.{Bytes, guess_extension, is_pdf_content}
use unlimited_ocr_server.Pdf.{RenderedPdfPage, Poppler, not_run}
use unlimited_ocr_server.Api.Http.{bad_request, Result, ok, err, Io, done, failed}
use unlimited_ocr_server.Api.Submit.{image_record}
use unlimited_ocr_server.Api.Submit.Validation.{validate_webhook_url, validate_image_bytes}
use unlimited_ocr_server.Api.Submit.Pages.{
  Site, saved, PdfRecordContext, page_record, page_records, page_records_from_rendered_pdf,
  read_rendered_page, image_job,
}
use unlimited_ocr_server.Api.Submit.Uploads.{uploaded_pending_submission, save_uploaded_image}
use unlimited_ocr_server.Api.Submit.Uploads.Deletable.{uploaded_pending_submission-removed}
use unlimited_ocr_server.Api.Submit.Pages.Records.{page_records_from_rendered_pdf-err}
use unlimited_ocr_server.Api.Submit.Samples.{request, parse_url, decoder}

-- Only the first page of a PDF can be read.
abbrev read_first : FilePath → Io Bytes
read_first [] = failed (codes "no such file")
read_first (name ∷ []) = done (codes "png-bytes")
read_first (name ∷ other ∷ rest) = failed (codes "no such file")

abbrev poppler : Poppler
poppler = record {
  pdfinfo = not_run (codes "no pdf here");
  pdftoppm = λ pages. not_run (codes "no pdf here");
  read_dir = none;
  entries = [];
}

abbrev site : Site
site = record {
  parse_url = parse_url;
  decoder = decoder;
  sha256_hex = λ bytes. codes "ab";
  uuid_text = λ id. codes "u";
  display = λ path. codes "path";
  file_name = λ path. none;
  pdf_error_text = λ e. codes "pdf";
  id = 9;
  page_id = λ n. 100 + n;
  now = 1;
  page_now = λ n. 1;
  write = saved;
  poppler = poppler;
  rendered_files = [];
  read = read_first;
  canonicalize = done;
  is_file = λ path. done true;
  stuck = λ path. false;
}

abbrev context : PdfRecordContext
context = record {
  input_kind = upload_pdf_page;
  source_path = none;
  document_filename = none;
  task = record { text_input = none };
  webhook_url = none;
}

abbrev first_page : RenderedPdfPage
first_page = record { page_number = 1; image_path = codes "1.png" ∷ [] }

abbrev second_page : RenderedPdfPage
second_page = record { page_number = 2; image_path = codes "pages" ∷ codes "2.png" ∷ [] }

abbrev first_record : JobRecord
first_record = page_record site context 1 first_page (codes "png-bytes")

one_page : page_records site config context 1 (first_page ∷ []) ≡ ok (first_record ∷ [])
unfolding page_records read_rendered_page validate_image_bytes
one_page = refl

abbrev both : List RenderedPdfPage
both = first_page ∷ second_page ∷ []

abbrev on_disk : List FilePath
on_disk = first_page.image_path ∷ second_page.image_path ∷ (codes "other.png" ∷ []) ∷ []

abbrev left : List FilePath × Result (List JobRecord)
left = page_records_from_rendered_pdf site config context both on_disk

unreadable :
    left.1 ≡ err (bad_request (codes "failed to read rendered PDF page path: no such file"))
unfolding page_records_from_rendered_pdf page_records read_rendered_page validate_image_bytes
unreadable = refl

page_records_from_rendered_pdf-err_example :
    ((p : FilePath) → In p left.0 → In p on_disk)
    × ((p : FilePath)
        → In p (map (λ page. page.image_path) both)
        → site.stuck p ≡ false
        → In p left.0
        → ⊥)
page_records_from_rendered_pdf-err_example =
    page_records_from_rendered_pdf-err site config context both on_disk _ unreadable

abbrev uploaded : JobRecord
uploaded =
    image_job site (images ++ codes "u.png" ∷ []) none (some (codes "image/png"))
      (codes "png-bytes") upload none (record { text_input = some (codes "b") }) none

accepted : (uploaded_pending_submission site config request []).1 ≡ ok (image_record uploaded)
unfolding uploaded_pending_submission validate_webhook_url is_pdf_content validate_image_bytes
    save_uploaded_image guess_extension from_text_input normalize_optional_text trim trim_start
    trim_end
accepted = refl

-- The map and the disk once the upload is accepted.
abbrev holding : Server one_slot
holding = record server {
  jobs = (9, uploaded) ∷ [];
  images = image_of 1 ∷ uploaded.image_path ∷ [];
}

uploaded_pending_submission-removed_example :
    In uploaded.image_path
      (finish_job one_slot config flaky patient finishing 9 (Worker.done metadata) holding).images
    → ⊥
unfolding get
uploaded_pending_submission-removed_example =
    uploaded_pending_submission-removed site one_slot config flaky patient request [] uploaded
      uploaded finishing 9 (Worker.done metadata) holding accepted refl refl refl refl (λ s m. m)
