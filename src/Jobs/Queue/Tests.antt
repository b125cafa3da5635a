-- ===== src/Jobs/Queue/Tests.antt =====
-- Submissions to a channel for one request (src/jobs/queue.rs).
use unlimited_ocr_server.Prelude.{◌≡◌, refl, [], ◌∷◌, none}
use unlimited_ocr_server.Types.{JobRecord, queued}
use unlimited_ocr_server.Jobs.Map.{get}
use unlimited_ocr_server.Jobs.Store.Files.{written, append_jsonl}
use unlimited_ocr_server.Jobs.Server.{Server}
use unlimited_ocr_server.Jobs.Samples.{one_slot, server, job, three-IsKeyed}
use unlimited_ocr_server.Jobs.Queue.{
  Others, Disk, queue_full, err, job_request_from_record, enqueue_record, submit, refuse,
  rollback_unqueued_record, persist_unqueued_record,
}
use unlimited_ocr_server.Jobs.Queue.Outcome.{alone, enqueue_record_absent}

abbrev good_disk : Disk one_slot
good_disk = record { submission = written; result = written; now = 30 }

abbrev fourth : JobRecord
fourth = job 4 queued 25

-- Another task fills the channel's one slot while the submission waits.
abbrev overtaking : Others one_slot
overtaking = record (alone one_slot) {
  at_send = λ s. record s { queue = job_request_from_record (job 3 queued 7) ∷ [] };
}

overtaken : (enqueue_record one_slot overtaking good_disk fourth server).1 ≡ err queue_full
unfolding enqueue_record submit append_jsonl refuse rollback_unqueued_record persist_unqueued_record
overtaken = refl

enqueue_record_absent_example :
    get (enqueue_record one_slot overtaking good_disk fourth server).0.jobs fourth.id ≡ none
unfolding get
enqueue_record_absent_example =
    enqueue_record_absent one_slot overtaking good_disk fourth server
      ((λ t h. h), (λ t h. h), (λ t h. h), (λ t h. h)) three-IsKeyed (λ t h. h) refl refl overtaken
