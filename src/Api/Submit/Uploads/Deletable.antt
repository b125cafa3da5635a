-- ===== src/Api/Submit/Uploads/Deletable.antt =====
-- The image of an upload, and its removal (src/api/submit.rs with src/jobs/worker.rs).
use mathlib.Core.Path.{subst}
use unlimited_ocr_server.Prelude.{
  ◌≡◌, refl, sym, ap, ◌∙◌, ◌⊎◌, inl, inr, Text, true, List, [], ◌∷◌, ◌++◌, Option, none, some,
  arith, Bool-cases,
}
use unlimited_ocr_server.Types.{Uuid, FilePath, JobRecord, upload}
use unlimited_ocr_server.Types.Task.{TaskSpec}
use unlimited_ocr_server.Config.{Config}
use unlimited_ocr_server.Prelude.Membership.{In}
use unlimited_ocr_server.Jobs.Map.{get}
use unlimited_ocr_server.Jobs.Webhook.{Http, WebhookClient}
use unlimited_ocr_server.Jobs.Server.{Channel, Server}
use unlimited_ocr_server.Jobs.Worker.{
  should_delete_image, Finishing, JobResult, removed, finish_job,
}
use unlimited_ocr_server.Jobs.Worker.Cleanup.{path_is_inside_iff, BringsNot, finish_job-removes}
use unlimited_ocr_server.Util.{is_pdf_content}
use unlimited_ocr_server.Api.Http.{value_of_step, ok_injective, ApiError, Result, ok, err, ◌>>=◌}
use unlimited_ocr_server.Api.Submit.{image_record, pdf_records}
use unlimited_ocr_server.Api.Submit.Multipart.{UploadedFile, MultipartInferenceRequest}
use unlimited_ocr_server.Api.Submit.Validation.{validate_image_bytes}
use unlimited_ocr_server.Api.Submit.Validation.Hosts.{>>-ok}
use unlimited_ocr_server.Api.Submit.Pages.{Site, image_job, as_pdf, written}
use unlimited_ocr_server.Api.Submit.Uploads.{
  save_uploaded_image, uploaded_image, uploaded_checked, uploaded_pending_submission,
  uploaded_pdf_page_records,
}

Result-cases : {A : Type 0} (r : Result A) → ((a : A) × (r ≡ ok a)) ⊎ ((e : ApiError) × (r ≡ err e))
Result-cases (ok a) = inl (a, refl)
Result-cases (err e) = inr (e, refl)

image_job-deletable :
    (site : Site) (config : Config) (file : UploadedFile) (task : TaskSpec) (url : Option Text)
    (name : Text)
    → should_delete_image config (
        image_job site
          (config.images_dir ++ name ∷ [])
          file.filename
          file.content_type
          file.bytes
          upload
          none
          task
          url)
      ≡ true
unfolding should_delete_image image_job
image_job-deletable site config file task url name =
    (path_is_inside_iff (config.images_dir ++ name ∷ []) config.images_dir).1 (name, [], refl)

image_record_injective : {r s : JobRecord} → image_record r ≡ image_record s → r ≡ s
image_record_injective {r = r} e = ap (λ p. elim p [ image_record x ↦ x | pdf_records _ ↦ r ]) e

save_uploaded_image-ok :
    (site : Site) (config : Config) (file : UploadedFile) (images : List FilePath) (path : FilePath)
    → (save_uploaded_image site config file images).1 ≡ ok path
    → (name : Text) × (path ≡ config.images_dir ++ name ∷ [])
unfolding save_uploaded_image
save_uploaded_image-ok site config file images path h =
    let (_, same) = >>-ok (written site.write _) _ h in (_, sym (ok_injective same))

uploaded_image-saved :
    (site : Site) (config : Config) (file : UploadedFile) (task : TaskSpec) (url : Option Text)
    (images : List FilePath)
    → validate_image_bytes site.decoder config file.content_type file.bytes ≡ ok tt
    → (uploaded_image site config file task url images).1 ≡ (
        (save_uploaded_image site config file images).1 >>= λ path. ok (
          image_record
            (image_job site path file.filename file.content_type file.bytes upload none task url)))
uploaded_image-saved site config file task url images good = ground (arith, good)

uploaded_image-deletable :
    (site : Site) (config : Config) (file : UploadedFile) (task : TaskSpec) (url : Option Text)
    (images : List FilePath) (r : JobRecord)
    → (uploaded_image site config file task url images).1 ≡ ok (image_record r)
    → should_delete_image config r ≡ true
uploaded_image-deletable site config file task url images r h =
    elim (Result-cases (validate_image_bytes site.decoder config file.content_type file.bytes)) [
      | inr (e, bad) ↦ absurd (ground (arith, bad))
      | inl (tt, good) ↦
          let (path, stored, same) =
            value_of_step (save_uploaded_image site config file images).1 _
              (sym (uploaded_image-saved site config file task url images good) ∙ h) in
          let (name, at) = save_uploaded_image-ok site config file images path stored in
          let job = λ (p : FilePath).
            image_job site p file.filename file.content_type file.bytes upload none task url in
          subst (λ x. should_delete_image config x ≡ true)
            (sym (ap job at) ∙ image_record_injective (ok_injective same))
            (image_job-deletable site config file task url name)
    ]

no_image_of_pdf :
    (pages : List FilePath × Result (List JobRecord)) (r : JobRecord)
    → (as_pdf pages).1 ≡ ok (image_record r)
    → ⊥
no_image_of_pdf (images, ok records) r h = ground arith
no_image_of_pdf (images, err e) r h = ground arith

uploaded_checked-deletable :
    (site : Site) (config : Config) (task : TaskSpec)
    (checked : Result (UploadedFile × Option Text)) (images : List FilePath) (r : JobRecord)
    → (uploaded_checked site config task checked images).1 ≡ ok (image_record r)
    → should_delete_image config r ≡ true
uploaded_checked-deletable site config task (err e) images r h = absurd (ground arith)
uploaded_checked-deletable site config task (ok (file, url)) images r h =
    elim (Bool-cases (is_pdf_content file.content_type file.bytes)) [
      | inl t ↦ absurd (
          no_image_of_pdf (uploaded_pdf_page_records site config file task url images) r
            (rw t at h))
      | inr f ↦ uploaded_image-deletable site config file task url images r (rw f at h)
    ]

uploaded_pending_submission-deletable :
    (site : Site) (config : Config) (request : MultipartInferenceRequest) (images : List FilePath)
    (r : JobRecord)
    → (uploaded_pending_submission site config request images).1 ≡ ok (image_record r)
    → should_delete_image config r ≡ true
unfolding uploaded_pending_submission
uploaded_pending_submission-deletable site config request images r h =
    uploaded_checked-deletable site config _ _ images r h

-- The image of an accepted upload is gone once `finish_job` has finished its job, if the map still
-- holds that job, the file system grants the removal, and no other task writes the image again.
pub uploaded_pending_submission-removed :
    (site : Site) (c : Channel) (config : Config) (http : Http) (webhooks : WebhookClient)
    (request : MultipartInferenceRequest) (images : List FilePath) (r held : JobRecord)
    (f : Finishing c) (id : Uuid) (result : JobResult) (s : Server c)
    → (uploaded_pending_submission site config request images).1 ≡ ok (image_record r)
    → get (f.at_lock s).jobs id ≡ some held
    → held.image_path ≡ r.image_path
    → held.input_kind ≡ r.input_kind
    → f.removal ≡ removed
    → BringsNot c config http webhooks held.image_path f.at_retain
    → In r.image_path (finish_job c config http webhooks f id result s).images
    → ⊥
unfolding should_delete_image
uploaded_pending_submission-removed site c config http webhooks request images r held f id result s
      accepted here path kind gone quiet m =
    let deletable = uploaded_pending_submission-deletable site config request images r accepted in
    let after = finish_job c config http webhooks f id result s in
    finish_job-removes c config http webhooks f id result s held here (rw (path, kind) deletable)
      gone quiet (subst (λ p. In p after.images) (sym path) m)
