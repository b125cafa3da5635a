-- ===== src/Jobs/Queue.antt =====
-- src/jobs/queue.rs: submission of a job. The task waits for the lock of the job map and for the
-- files, and other tasks run meanwhile: `Others` is what they do at each such point.
pub mod Outcome
mod Tests
use mathlib.Core.Option.{Option, none, some}
use unlimited_ocr_server.Prelude.{ℕ, Bool, true, false, Text, if◌then◌else◌}
use unlimited_ocr_server.Types.{
  Uuid, Time, JobRecord, QueueResponse, job_url, queued, failed, ErrorMessage, queue_became_full,
  queue_became_closed,
}
use unlimited_ocr_server.Types.Task.{from_text_input}
use unlimited_ocr_server.Jobs.Map.{JobMap, insert, remove}
use unlimited_ocr_server.Jobs.Store.Files.{Append, append_jsonl}
use unlimited_ocr_server.Jobs.Store.Load.{Metadata}
use unlimited_ocr_server.Jobs.Server.{JobRequest, SendOutcome, sent, full, closed, Channel, Server}

pub data EnqueueError : Type 0 where
  queue_full queue_closed : EnqueueError
  persist : Text → EnqueueError

pub data Result {ℓ} (A : Type ℓ) : Type ℓ where
  ok : A → Result A
  err : EnqueueError → Result A

unfoldable pub job_request_from_record : JobRecord → JobRequest
job_request_from_record r = record {
  id = r.id;
  image_path = r.image_path;
  task = from_text_input r.text_input;
}

unfoldable pub queue_response : Uuid → QueueResponse
queue_response id = record { id = id; status = queued; status_url = job_url id }

module _ (c : Channel) where
  pub record Others : Type 0 where
    pub at_insert : Server c → Server c
    pub at_append : Server c → Server c
    pub at_send : Server c → Server c
    pub at_remove : Server c → Server c
    pub at_results : Server c → Server c

  -- The appends to the two files, and the clock reading of a rollback.
  pub record Disk : Type 0 where
    pub submission : Append
    pub result : Append
    pub now : Time

  unfoldable pub unqueued_record : Time → ErrorMessage → JobRecord → JobRecord
  unqueued_record now error r = record r { status = failed; updated_at = now; error = some error }

  unfoldable pub persist_unqueued_record :
      Disk → JobRecord → ErrorMessage → Server c → Server c × Result (Unit {0})
  persist_unqueued_record disk r error s =
      let (results, failure) =
        append_jsonl disk.result (unqueued_record disk.now error r) s.files.results in
      (
        record s { files = record s.files { results = results } },
        elim failure [ none ↦ ok tt | some e ↦ err (persist e) ],
      )

  unfoldable pub rollback_unqueued_record :
      Others → Disk → Uuid → JobRecord → ErrorMessage → Server c → Server c × Result (Unit {0})
  rollback_unqueued_record others disk id r error s =
      let s' = others.at_remove s in
      let s'' = others.at_results (record s' { jobs = remove id s'.jobs }) in
      persist_unqueued_record disk r error s''

  -- `rollback_unqueued_record(…).await?; return Err(refusal)`
  unfoldable pub refuse :
      Others
      → Disk
      → JobRecord
      → ErrorMessage
      → EnqueueError
      → Server c
      → Server c × Result QueueResponse
  refuse others disk r error refusal s =
      let (s', rolled_back) = rollback_unqueued_record others disk r.id r error s in
      (s', elim rolled_back [ ok _ ↦ err refusal | err e ↦ err e ])

  abbrev after_send :
      SendOutcome → Others → Disk → JobRecord → Server c → Server c × Result QueueResponse
  after_send sent others disk r s = (s, ok (queue_response r.id))
  after_send full others disk r s = refuse others disk r queue_became_full queue_full s
  after_send closed others disk r s = refuse others disk r queue_became_closed queue_closed s

  -- From the append to the submissions file on.
  unfoldable pub submit : Others → Disk → JobRecord → Server c → Server c × Result QueueResponse
  submit others disk r s =
      let (submissions, failure) = append_jsonl disk.submission r s.files.submissions in
      let s' = record s { files = record s.files { submissions = submissions } } in
      elim failure [
        | some e ↦ (s', err (persist e))
        | none ↦
            let s'' = others.at_send s' in
            let (queue, outcome) = c.try_send (job_request_from_record r) s''.queue in
            after_send outcome others disk r (record s'' { queue = queue })
      ]

  unfoldable pub enqueue_record :
      Others → Disk → JobRecord → Server c → Server c × Result QueueResponse
  enqueue_record others disk r s =
      if c.is_full s.queue
      then (s, err queue_full)
      else (let s' = others.at_insert s in
          submit others disk r (others.at_append (record s' { jobs = insert r.id r s'.jobs })))
