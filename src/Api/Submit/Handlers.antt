-- ===== src/Api/Submit/Handlers.antt =====
-- The handlers of src/api/submit.rs up to the response.
use unlimited_ocr_server.Prelude.{Option, Text, List}
use unlimited_ocr_server.Types.{FilePath, SubmissionResponse}
use unlimited_ocr_server.Config.{Config}
use unlimited_ocr_server.Jobs.Server.{Channel, Server}
use unlimited_ocr_server.Api.Http.{Result, ok, err}
use unlimited_ocr_server.Api.Submit.{Surroundings, PendingSubmission, enqueue_pending_submission}
use unlimited_ocr_server.Api.Submit.Multipart.{
  Part, MultipartInferenceRequest, read_multipart_inference_request,
}
use unlimited_ocr_server.Api.Submit.Validation.{ensure_workers_ready}
use unlimited_ocr_server.Api.Submit.Pages.{Site}
use unlimited_ocr_server.Api.Submit.Uploads.{uploaded_pending_submission}
use unlimited_ocr_server.Api.Submit.Local.{local_path_pending_submission}

module _ (c : Channel) (config : Config) (site : Site) (around : Surroundings c) where
  -- A submission that was made of the files given, with those that it leaves.
  abbrev enqueue_made :
      List FilePath × Result PendingSubmission → Server c → Server c × Result SubmissionResponse
  enqueue_made (images, err e) s = (record s { images = images }, err e)
  enqueue_made (images, ok pending) s =
      enqueue_pending_submission c config around pending (record s { images = images })

  abbrev submit_request :
      Result MultipartInferenceRequest → Server c → Server c × Result SubmissionResponse
  submit_request (err e) s = (s, err e)
  submit_request (ok request) s =
      enqueue_made (uploaded_pending_submission site config request s.images) s

  abbrev if_ready :
      Result (Unit {0})
      → (Server c → Server c × Result SubmissionResponse)
      → Server c
      → Server c × Result SubmissionResponse
  if_ready (err e) next s = (s, err e)
  if_ready (ok _) next s = next s

  unfoldable pub submit_multipart_job : List Part → Server c → Server c × Result SubmissionResponse
  submit_multipart_job parts s =
      if_ready (ensure_workers_ready s.workers)
        (submit_request (read_multipart_inference_request parts)) s

  unfoldable pub submit_inference_path :
      (image_path : FilePath) (text_input webhook_url : Option Text)
      → Server c
      → Server c × Result SubmissionResponse
  submit_inference_path image_path text_input webhook_url s =
      if_ready (ensure_workers_ready s.workers)
        (λ s.
          enqueue_made
            (local_path_pending_submission site config image_path text_input webhook_url s.images)
            s)
        s
