-- ===== src/Api/Submit/Queueing.antt =====
-- A PDF whose pages all fit in the queue (src/api/submit.rs with src/jobs/queue.rs).
use mathlib.Core.List.{append-nil, append_assoc}
use unlimited_ocr_server.Prelude.{
  ℕ, ◌+◌, ◌≤◌, ◌<◌, ◌≡◌, refl, sym, ap, ◌∙◌, ◌⊎◌, inl, inr, false, List, [], ◌∷◌, ◌++◌, map, length,
  some, arith, Bool-cases, leb, min, codes, decimal,
}
use unlimited_ocr_server.Types.{Uuid, JobRecord, QueueResponse, SubmissionResponse, pdf}
use unlimited_ocr_server.Config.{Config}
use unlimited_ocr_server.State.Word.{usize_max}
use unlimited_ocr_server.Jobs.Map.{insert}
use unlimited_ocr_server.Jobs.Store.Files.{written, json, lines, append_jsonl}
use unlimited_ocr_server.Jobs.Server.{Channel, Server, JobRequest, sent}
use unlimited_ocr_server.Jobs.Queue.{
  Others, Disk, enqueue_record, job_request_from_record, queue_response, submit,
}
use unlimited_ocr_server.Jobs.Queue as Queue
use unlimited_ocr_server.Jobs.Queue.Outcome.{alone}
use unlimited_ocr_server.Api.Http.{ApiError, service_unavailable, ok, err}
use unlimited_ocr_server.Api.Submit.{
  Surroundings, submit_record, submit_records, enqueue_pdf_records, enqueue_pending_submission,
  pdf_records, ensure_queue_has_capacity, cleanup_rendered_pages,
}

-- What `async_channel::bounded` promises of an open channel.
pub record IsBounded (c : Channel) (capacity : ℕ) : Type 0 where
  pub len-contents : (q : c.Queue) → c.len q ≡ length (c.contents q)
  pub is_full-len : (q : c.Queue) → c.len q < capacity → c.is_full q ≡ false
  pub sends : (r : JobRequest) (q : c.Queue) → c.len q < capacity → (c.try_send r q).1 ≡ sent

-- No other task runs, and the disk takes the lines.
pub record IsCalm {c : Channel} (around : Surroundings c) : Type 0 where
  pub no_others : (id : Uuid) → around.others id ≡ alone c
  pub takes_submission : (id : Uuid) → (around.disk id).submission ≡ written

-- The server with one more job.
abbrev pub with_job : (c : Channel) → Server c → JobRecord → Server c
with_job c s r = record s {
  jobs = insert r.id r s.jobs;
  queue = (c.try_send (job_request_from_record r) s.queue).0;
  files = record s.files { submissions = some (lines s.files.submissions ++ json r ∷ []) };
}

abbrev pub with_jobs : (c : Channel) → List JobRecord → Server c → Server c
with_jobs c [] s = s
with_jobs c (r ∷ records) s = with_jobs c records (with_job c s r)

module _ (c : Channel) where
  enqueue_record-sent :
      (disk : Disk c) (r : JobRecord) (s : Server c)
      → c.is_full s.queue ≡ false
      → disk.submission ≡ written
      → (c.try_send (job_request_from_record r) s.queue).1 ≡ sent
      → enqueue_record c (alone c) disk r s ≡ (with_job c s r, Queue.ok (queue_response r.id))
  unfolding enqueue_record submit append_jsonl
  enqueue_record-sent disk r s room logs taken = rw (room, logs, taken) refl

  submit_records_step :
      (around : Surroundings c) (r : JobRecord) (records : List JobRecord) (s : Server c)
      {s' s'' : Server c} {response : QueueResponse} {responses : List QueueResponse}
      → submit_record c around r s ≡ (s', ok response)
      → submit_records c around records s' ≡ (s'', ok responses)
      → submit_records c around (r ∷ records) s ≡ (s'', ok (response ∷ responses))
  unfolding submit_records
  submit_records_step around r records s one more = ground arith

  module _ (capacity : ℕ) (bounded : IsBounded c capacity) (around : Surroundings c)
      (calm : IsCalm around) where
    length_snoc : (xs : List JobRequest) (x : JobRequest) → length (xs ++ x ∷ []) ≡ length xs + 1
    length_snoc [] x = omega arith
    length_snoc (y ∷ xs) x = omega (arith, length_snoc xs x)

    len-with_job :
        (s : Server c) (r : JobRecord)
        → c.len s.queue < capacity
        → c.len (with_job c s r).queue ≡ c.len s.queue + 1
    len-with_job s r room =
        let request = job_request_from_record r in
        bounded.len-contents (with_job c s r).queue
        ∙ ap length (c.try_send-sent request s.queue (bounded.sends request s.queue room))
        ∙ length_snoc (c.contents s.queue) request
        ∙ ap (λ n. n + 1) (sym (bounded.len-contents s.queue))

    submit_record-sent :
        (r : JobRecord) (s : Server c)
        → c.len s.queue < capacity
        → submit_record c around r s ≡ (with_job c s r, ok (queue_response r.id))
    unfolding submit_record
    submit_record-sent r s room =
        rw
          (
            calm.no_others r.id,
            enqueue_record-sent (around.disk r.id) r s (bounded.is_full-len s.queue room)
                (calm.takes_submission r.id)
                (bounded.sends (job_request_from_record r) s.queue room),
          )
          refl

    submit_records-sent :
        (records : List JobRecord) (s : Server c)
        → c.len s.queue + length records ≤ capacity
        → submit_records c around records s
          ≡ (with_jobs c records s, ok (map (λ r. queue_response r.id) records))
    unfolding submit_records
    submit_records-sent [] s room = refl
    submit_records-sent (r ∷ records) s room =
        let one = submit_record-sent r s (omega arith) in
        let more =
          submit_records-sent records (with_job c s r)
            (omega (arith, len-with_job s r (omega arith))) in
        submit_records_step around r records s one more

    with_jobs-contents :
        (records : List JobRecord) (s : Server c)
        → c.len s.queue + length records ≤ capacity
        → c.contents (with_jobs c records s).queue
          ≡ c.contents s.queue ++ map job_request_from_record records
    with_jobs-contents [] s room = sym (append-nil (c.contents s.queue))
    with_jobs-contents (r ∷ records) s room =
        let request = job_request_from_record r in
        with_jobs-contents records (with_job c s r) (omega (arith, len-with_job s r (omega arith)))
        ∙ ap (λ q. q ++ map job_request_from_record records)
            (c.try_send-sent request s.queue (bounded.sends request s.queue (omega arith)))
        ∙ append_assoc (c.contents s.queue) (request ∷ []) (map job_request_from_record records)

    abbrev pub answer : List JobRecord → SubmissionResponse
    answer records = pdf (record {
      kind = codes "pdf";
      page_count = length records;
      jobs = map (λ r. queue_response r.id) records;
    })

    ensure_queue_has_capacity-err :
        (config : Config) (jobs : ℕ) (s : Server c)
        → leb (min (c.len s.queue + jobs) usize_max) config.queue_size ≡ false
        → (e : ApiError) × (ensure_queue_has_capacity c config jobs s ≡ err e)
    unfolding ensure_queue_has_capacity
    ensure_queue_has_capacity-err config jobs s f = (
      service_unavailable (
          codes "inference queue does not have enough capacity for "
          ++ decimal jobs
          ++ codes " PDF pages"),
      rw f refl,
    )

    capacity_test :
        (config : Config) (jobs : ℕ) (s : Server c)
        → config.queue_size ≡ capacity
        → capacity < usize_max
        → ((c.len s.queue + jobs ≤ capacity) × (ensure_queue_has_capacity c config jobs s ≡ ok tt))
          ⊎ ((capacity < c.len s.queue + jobs)
              × ((e : ApiError) × (ensure_queue_has_capacity c config jobs s ≡ err e)))
    unfolding ensure_queue_has_capacity
    capacity_test config jobs s size small =
        elim (Bool-cases (leb (min (c.len s.queue + jobs) usize_max) config.queue_size)) [
          | inl t ↦ inl (ground arith, rw t refl)
          | inr f ↦ inr (ground arith, ensure_queue_has_capacity-err config jobs s f)
        ]

    pages_fit :
        (config : Config) (records : List JobRecord) (s : Server c)
        → c.len s.queue + length records ≤ capacity
        → ensure_queue_has_capacity c config (length records) s ≡ ok tt
        → enqueue_pending_submission c config around (pdf_records records) s
          ≡ (with_jobs c records s, ok (answer records))
    unfolding enqueue_pending_submission enqueue_pdf_records
    pages_fit config records s room passed =
        ground (arith, passed, submit_records-sent records s room)

    pages_do_not_fit :
        (config : Config) (records : List JobRecord) (s : Server c) (e : ApiError)
        → ensure_queue_has_capacity c config (length records) s ≡ err e
        → enqueue_pending_submission c config around (pdf_records records) s
          ≡ (cleanup_rendered_pages c around.stuck records s, err e)
    unfolding enqueue_pending_submission
    pages_do_not_fit config records s e refused = ground (arith, refused)

    cleanup-same :
        (records : List JobRecord) (s : Server c)
        → ((cleanup_rendered_pages c around.stuck records s).queue ≡ s.queue)
          × ((cleanup_rendered_pages c around.stuck records s).jobs ≡ s.jobs)
    unfolding cleanup_rendered_pages
    cleanup-same records s = (refl, refl)

    -- With a queue as long as configured, and no other task running, the pages of a PDF are queued
    -- all, in order, and answered each with its id, if the queue has room for all of them; else none
    -- is, the queue and the jobs stay as they are and the caller gets an error.
    pub enqueue_pending_submission_pages :
        (config : Config) (records : List JobRecord) (s : Server c)
        → config.queue_size ≡ capacity
        → capacity < usize_max
        → let (after, result) =
            enqueue_pending_submission c config around (pdf_records records) s in
          ((c.len s.queue + length records ≤ capacity)
            × (result ≡ ok (answer records))
            × (c.contents after.queue ≡ c.contents s.queue ++ map job_request_from_record records)
            × (after.jobs ≡ (with_jobs c records s).jobs))
          ⊎ ((capacity < c.len s.queue + length records)
              × ((e : ApiError) × (result ≡ err e))
              × (after.queue ≡ s.queue)
              × (after.jobs ≡ s.jobs))
    enqueue_pending_submission_pages config records s size small =
        elim (capacity_test config (length records) s size small) [
          | inl (room, passed) ↦
              let same = pages_fit config records s room passed in
              inl (
                room,
                ap (λ x. x.1) same,
                ap (λ x. c.contents x.0.queue) same ∙ with_jobs-contents records s room,
                ap (λ x. x.0.jobs) same,
              )
          | inr (over, (e, refused)) ↦
              let same = pages_do_not_fit config records s e refused in
              let (queue, jobs) = cleanup-same records s in
              inr (
                over,
                (e, ap (λ x. x.1) same),
                ap (λ x. x.0.queue) same ∙ queue,
                ap (λ x. x.0.jobs) same ∙ jobs,
              )
        ]
