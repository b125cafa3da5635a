-- ===== src/Api/Submit/Tests.antt =====
-- PDF pages queued and multipart bodies read (src/api/submit.rs).
use unlimited_ocr_server.Prelude.{
  ◌+◌, ◌≡◌, ◌≤◌, ◌<◌, ◌⊎◌, refl, Text, codes, false, List, [], ◌∷◌, ◌++◌, length, map, some, none,
  All, arith,
}
use unlimited_ocr_server.Types.{JobRecord, queued, SubmissionResponse}
use unlimited_ocr_server.Jobs.Store.Files.{written}
use unlimited_ocr_server.Jobs.Server.{Server, JobRequest, sent}
use unlimited_ocr_server.Jobs.Queue.{job_request_from_record}
use unlimited_ocr_server.Jobs.Queue.Outcome.{alone}
use unlimited_ocr_server.Jobs.Samples.{one_slot, server, config, job}
use unlimited_ocr_server.Api.Http.{ApiError, Result, ok, err, done}
use unlimited_ocr_server.Api.Submit.{Surroundings, enqueue_pending_submission, pdf_records}
use unlimited_ocr_server.Api.Submit.Queueing.{
  IsBounded, IsCalm, with_jobs, answer, enqueue_pending_submission_pages,
}
use unlimited_ocr_server.Api.Submit.Multipart.{
  Part, field, IsSupported, last_or, texts_named, files_named, field_kind, read_fields,
  apply_multipart_field, read_text_field, read_uploaded_file, read_multipart_inference_request,
  read_multipart_inference_request-ok,
}
use unlimited_ocr_server.Api.Submit.Samples.{request}

abbrev calm : Surroundings one_slot
calm = record {
  others = λ id. alone one_slot;
  disk = λ id. record { submission = written; result = written; now = 30 };
  stuck = λ p. false;
}

calm-IsCalm : IsCalm calm
calm-IsCalm = record { no_others = λ id. refl; takes_submission = λ id. refl }

small-is_full : (q : List JobRequest) → length q < 1 → one_slot.is_full q ≡ false
small-is_full [] h = refl
small-is_full (x ∷ q) h = absurd (omega arith)

small-sends :
    (r : JobRequest) (q : List JobRequest) → length q < 1 → (one_slot.try_send r q).1 ≡ sent
small-sends r [] h = refl
small-sends r (x ∷ q) h = absurd (omega arith)

one_slot-IsBounded : IsBounded one_slot 1
one_slot-IsBounded = record {
  len-contents = λ q. refl;
  is_full-len = small-is_full;
  sends = small-sends;
}

abbrev pages : List JobRecord
pages = job 4 queued 25 ∷ []

abbrev outcome : Server one_slot × Result SubmissionResponse
outcome = enqueue_pending_submission one_slot config calm (pdf_records pages) server

enqueue_pending_submission_pages_example :
    ((0 + 1 ≤ 1)
      × (outcome.1 ≡ ok (answer one_slot 1 one_slot-IsBounded calm calm-IsCalm pages))
      × (one_slot.contents outcome.0.queue
          ≡ one_slot.contents server.queue ++ map job_request_from_record pages)
      × (outcome.0.jobs ≡ (with_jobs one_slot pages server).jobs))
    ⊎ ((1 < 0 + 1)
        × ((e : ApiError) × (outcome.1 ≡ err e))
        × (outcome.0.queue ≡ server.queue)
        × (outcome.0.jobs ≡ server.jobs))
enqueue_pending_submission_pages_example =
    enqueue_pending_submission_pages one_slot 1 one_slot-IsBounded calm calm-IsCalm config pages
      server refl (ground arith)

abbrev named : Text → Text → Part
named name value = field (record {
  name = some name;
  file_name = none;
  content_type = some (codes "image/png");
  bytes = done value;
  text = done value;
})

abbrev parts : List Part
parts =
    named (codes "text_input") (codes "a")
    ∷ named (codes "image") (codes "png-bytes")
    ∷ named (codes "text_input") (codes "b")
    ∷ []

read_parts : read_multipart_inference_request parts ≡ ok request
unfolding read_multipart_inference_request read_fields apply_multipart_field field_kind
    read_text_field read_uploaded_file
read_parts = refl

read_multipart_inference_request-ok_example :
    (request.text_input ≡ last_or none (texts_named (codes "text_input") parts))
    × (request.webhook_url ≡ last_or none (texts_named (codes "webhook_url") parts))
    × (request.file ≡ last_or none (files_named parts))
    × All IsSupported parts
read_multipart_inference_request-ok_example =
    read_multipart_inference_request-ok parts request read_parts
