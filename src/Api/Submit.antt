-- ===== src/Api/Submit.antt =====
-- src/api/submit.rs: what becomes of a submission once its records are made. The records of a PDF
-- are queued one by one; what the disk and other tasks do meanwhile is a function of the record's id.
pub mod Multipart
pub mod Pages
pub mod Uploads
pub mod Local
pub mod IpAddr
pub mod Validation
pub mod Queueing
pub mod Handlers
pub mod Samples
mod Tests
use unlimited_ocr_server.Prelude.{
  ℕ, ◌+◌, min, Text, codes, decimal, ◌++◌, text_eq, Bool, true, false, leb, not, List, [], ◌∷◌,
  length, map, retain, if◌then◌else◌,
}
use unlimited_ocr_server.Types.{
  Uuid, FilePath, JobRecord, QueueResponse, PdfQueueResponse, SubmissionResponse, image, pdf,
}
use unlimited_ocr_server.Config.{Config}
use unlimited_ocr_server.State.Word.{usize_max}
use unlimited_ocr_server.Jobs.Server.{Channel, Server}
use unlimited_ocr_server.Jobs.Queue.{
  EnqueueError, queue_full, queue_closed, persist, Others, Disk, enqueue_record,
}
use unlimited_ocr_server.Jobs.Queue as Queue
use unlimited_ocr_server.Jobs.Worker.{path_eq}
use unlimited_ocr_server.Api.Http.{ApiError, service_unavailable, internal, Result, ok, err}

pub data PendingSubmission : Type 0 where
  image_record : JobRecord → PendingSubmission
  pdf_records : List JobRecord → PendingSubmission

abbrev pub from_enqueue_error : EnqueueError → ApiError
from_enqueue_error queue_full = service_unavailable (codes "inference queue is full")
from_enqueue_error queue_closed = service_unavailable (codes "inference queue is closed")
from_enqueue_error (persist source) = internal source

abbrev pub enqueued : Queue.Result QueueResponse → Result QueueResponse
enqueued (Queue.ok r) = ok r
enqueued (Queue.err e) = err (from_enqueue_error e)

-- `saturating_add`
abbrev pub saturating_add : ℕ → ℕ → ℕ
saturating_add a b = min (a + b) usize_max

-- A failure to remove a file is ignored; `stuck` says which files fail.
unfoldable pub cleanup_paths :
    (stuck : FilePath → Bool) → List FilePath → List FilePath → List FilePath
cleanup_paths stuck [] files = files
cleanup_paths stuck (p ∷ paths) files =
    cleanup_paths stuck paths (if stuck p then files else retain (λ f. not (path_eq f p)) files)

module _ (c : Channel) where
  unfoldable pub ensure_queue_has_capacity : Config → ℕ → Server c → Result (Unit {0})
  ensure_queue_has_capacity config jobs s =
      if leb (saturating_add (c.len s.queue) jobs) config.queue_size
      then ok tt
      else err (
          service_unavailable (
            codes "inference queue does not have enough capacity for "
            ++ decimal jobs
            ++ codes " PDF pages"))

  unfoldable pub cleanup_rendered_pages :
      (stuck : FilePath → Bool) → List JobRecord → Server c → Server c
  cleanup_rendered_pages stuck records s = record s {
    images = cleanup_paths stuck (map (λ r. r.image_path) records) s.images;
  }

  -- What other tasks, the disk and file removal do during a submission.
  pub record Surroundings : Type 0 where
    pub others : Uuid → Others c
    pub disk : Uuid → Disk c
    pub stuck : FilePath → Bool

  unfoldable pub submit_record :
      Surroundings → JobRecord → Server c → Server c × Result QueueResponse
  submit_record around r s =
      let (s', result) = enqueue_record c (around.others r.id) (around.disk r.id) r s in
      (s', enqueued result)

  -- The loop of `enqueue_pdf_records` with the responses it collects.
  unfoldable pub submit_records :
      Surroundings → List JobRecord → Server c → Server c × Result (List QueueResponse)
  submit_records around [] s = (s, ok [])
  submit_records around (r ∷ records) s =
      let (s', result) = submit_record around r s in
      elim result [
        | err e ↦ (s', err e)
        | ok response ↦
            let (s'', rest) = submit_records around records s' in
            (s'', elim rest [ err e ↦ err e | ok responses ↦ ok (response ∷ responses) ])
      ]

  unfoldable pub enqueue_pdf_records :
      Surroundings → List JobRecord → Server c → Server c × Result SubmissionResponse
  enqueue_pdf_records around records s =
      let (s', result) = submit_records around records s in
      (
        s',
        elim result [
          | err e ↦ err e
          | ok responses ↦
              ok
                (pdf (record { kind = codes "pdf"; page_count = length records; jobs = responses }))
        ],
      )

  unfoldable pub enqueue_pending_submission :
      Config → Surroundings → PendingSubmission → Server c → Server c × Result SubmissionResponse
  enqueue_pending_submission config around (image_record r) s =
      let (s', result) = submit_record around r s in
      (s', elim result [ err e ↦ err e | ok response ↦ ok (image response) ])
  enqueue_pending_submission config around (pdf_records records) s =
      elim (ensure_queue_has_capacity config (length records) s) [
        | err e ↦ (cleanup_rendered_pages around.stuck records s, err e)
        | ok _ ↦ enqueue_pdf_records around records s
      ]
