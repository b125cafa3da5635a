-- ===== src/Jobs/Queue/Outcome.antt =====
-- What `enqueue_record` of src/jobs/queue.rs leaves behind, on every branch.
use mathlib.Core.Path.{subst}
use unlimited_ocr_server.Prelude.{
  ◌≡◌, refl, ◌∙◌, ap, sym, inl, inr, [], ◌∷◌, ◌++◌, none, some, arith, ◌==◌, if◌then◌else◌,
  Bool-cases, ==_refl,
}
use unlimited_ocr_server.Types.{
  Uuid, JobRecord, ErrorMessage, queue_became_full, queue_became_closed,
}
use unlimited_ocr_server.Jobs.Map.{get, insert, remove, IsKeyed, get-remove, insert-IsKeyed}
use unlimited_ocr_server.Jobs.Store.Files.{written, json, lines, append_jsonl}
use unlimited_ocr_server.Jobs.Server.{SendOutcome, sent, full, closed, Channel, Server}
use unlimited_ocr_server.Jobs.Queue.{
  EnqueueError, queue_full, queue_closed, err, job_request_from_record, Others, Disk,
  unqueued_record, persist_unqueued_record, rollback_unqueued_record, refuse, after_send, submit,
  enqueue_record,
}

module _ (c : Channel) where
  -- No other task runs while the submission waits.
  abbrev pub alone : Others c
  alone = record {
    at_insert = λ s. s;
    at_append = λ s. s;
    at_send = λ s. s;
    at_remove = λ s. s;
    at_results = λ s. s;
  }

  -- The job is in the map, its request last in the queue, its record last in the submissions file.
  pub record IsQueued (r : JobRecord) (before after : Server c) : Type 0 where
    pub listed : (k : Uuid) → get after.jobs k ≡ (if r.id == k then some r else get before.jobs k)
    pub sent_last :
        c.contents after.queue ≡ c.contents before.queue ++ job_request_from_record r ∷ []
    pub logged : lines after.files.submissions ≡ lines before.files.submissions ++ json r ∷ []
    pub results_same : after.files.results ≡ before.files.results

  -- The job is nowhere but in the two files: as submitted, and as failed for the reason.
  pub record IsRolledBack (disk : Disk c) (r : JobRecord) (error : ErrorMessage)
      (before after : Server c) : Type 0 where
    pub unlisted : (k : Uuid) → get after.jobs k ≡ (if r.id == k then none else get before.jobs k)
    pub not_sent : after.queue ≡ before.queue
    pub logged : lines after.files.submissions ≡ lines before.files.submissions ++ json r ∷ []
    pub failed_logged :
        lines after.files.results
        ≡ lines before.files.results ++ json (unqueued_record c disk.now error r) ∷ []

  -- Which refusal of the channel gives which error and which message in the results file.
  pub data Refuses : SendOutcome → EnqueueError → ErrorMessage → Type 0 where
    when_full : Refuses full queue_full queue_became_full
    when_closed : Refuses closed queue_closed queue_became_closed

  abbrev log_submission : JobRecord → Server c → Server c
  log_submission r s = record s {
    jobs = insert r.id r s.jobs;
    files = record s.files { submissions = some (lines s.files.submissions ++ json r ∷ []) };
  }

  abbrev roll_back : Disk c → JobRecord → ErrorMessage → Server c → Server c
  roll_back disk r error s = record s {
    jobs = remove r.id s.jobs;
    files = record s.files {
      results = some (lines s.files.results ++ json (unqueued_record c disk.now error r) ∷ []);
    };
  }

  module _ (disk : Disk c) (r : JobRecord) (s : Server c) where
    abbrev attempt : c.Queue × SendOutcome
    attempt = c.try_send (job_request_from_record r) s.queue

    abbrev submitted : Server c
    submitted = record (log_submission r s) { queue = attempt.0 }

  -- What other tasks do while the submission waits keeps a keyed map keyed.
  abbrev pub KeepsKeyed : Others c → Type 0
  KeepsKeyed others =
      ((t : Server c) → IsKeyed t.jobs → IsKeyed (others.at_insert t).jobs)
      × ((t : Server c) → IsKeyed t.jobs → IsKeyed (others.at_append t).jobs)
      × ((t : Server c) → IsKeyed t.jobs → IsKeyed (others.at_send t).jobs)
      × ((t : Server c) → IsKeyed t.jobs → IsKeyed (others.at_remove t).jobs)

  refuse_absent :
      (others : Others c) (disk : Disk c) (r : JobRecord) (message : ErrorMessage)
      (refusal : EnqueueError) (s : Server c)
      → KeepsKeyed others
      → IsKeyed s.jobs
      → ((t : Server c) → get t.jobs r.id ≡ none → get (others.at_results t).jobs r.id ≡ none)
      → get (refuse c others disk r message refusal s).0.jobs r.id ≡ none
  unfolding refuse rollback_unqueued_record persist_unqueued_record
  refuse_absent others disk r message refusal s (_, _, _, keeps) keyed quiet =
      let s' = others.at_remove s in
      quiet (record s' { jobs = remove r.id s'.jobs })
        (get-remove s'.jobs r.id r.id (keeps s keyed) ∙ unfold get in rw ==_refl)

  after_send_absent :
      (o : SendOutcome) (others : Others c) (disk : Disk c) (r : JobRecord) (s : Server c)
      {error : EnqueueError}
      → KeepsKeyed others
      → IsKeyed s.jobs
      → ((t : Server c) → get t.jobs r.id ≡ none → get (others.at_results t).jobs r.id ≡ none)
      → (after_send c o others disk r s).1 ≡ err error
      → get (after_send c o others disk r s).0.jobs r.id ≡ none
  after_send_absent sent others disk r s keeps keyed quiet e = absurd (ground arith)
  after_send_absent full others disk r s keeps keyed quiet e =
      refuse_absent others disk r _ _ s keeps keyed quiet
  after_send_absent closed others disk r s keeps keyed quiet e =
      refuse_absent others disk r _ _ s keeps keyed quiet

  abbrev log_only : JobRecord → Server c → Server c
  log_only r s = record s {
    files = record s.files { submissions = some (lines s.files.submissions ++ json r ∷ []) };
  }

  submit-after_send :
      (others : Others c) (disk : Disk c) (r : JobRecord) (s : Server c)
      → disk.submission ≡ written
      → submit c others disk r s ≡ (
          let t = others.at_send (log_only r s) in
          let (queue, o) = c.try_send (job_request_from_record r) t.queue in
          after_send c o others disk r (record t { queue = queue }))
  unfolding submit append_jsonl
  submit-after_send others disk r s logs = ground arith

  submit_absent :
      (others : Others c) (disk : Disk c) (r : JobRecord) (s : Server c) {error : EnqueueError}
      → KeepsKeyed others
      → IsKeyed s.jobs
      → ((t : Server c) → get t.jobs r.id ≡ none → get (others.at_results t).jobs r.id ≡ none)
      → disk.submission ≡ written
      → (submit c others disk r s).1 ≡ err error
      → get (submit c others disk r s).0.jobs r.id ≡ none
  submit_absent others disk r s keeps keyed quiet logs e =
      let t = others.at_send (log_only r s) in
      let (queue, o) = c.try_send (job_request_from_record r) t.queue in
      let sends = submit-after_send others disk r s logs in
      subst (λ p. get p.0.jobs r.id ≡ none) (sym sends)
        (after_send_absent o others disk r (record t { queue = queue }) keeps
          (keeps.2 (log_only r s) keyed) quiet (ap (λ p. p.1) (sym sends) ∙ e))

  -- Whatever other tasks do while the submission waits, if the map is keyed, they keep a keyed map
  -- keyed, and they do not bring the job back once it is removed: an error of a submission whose append to the submissions file
  -- was taken leaves a job that was not in the map out of it.
  pub enqueue_record_absent :
      (others : Others c) (disk : Disk c) (r : JobRecord) (s : Server c) {error : EnqueueError}
      → KeepsKeyed others
      → IsKeyed s.jobs
      → ((t : Server c) → get t.jobs r.id ≡ none → get (others.at_results t).jobs r.id ≡ none)
      → disk.submission ≡ written
      → get s.jobs r.id ≡ none
      → (enqueue_record c others disk r s).1 ≡ err error
      → get (enqueue_record c others disk r s).0.jobs r.id ≡ none
  unfolding enqueue_record
  enqueue_record_absent others disk r s keeps keyed quiet logs fresh e =
      elim (Bool-cases (c.is_full s.queue)) [
        | inl t ↦ rw t fresh
        | inr room ↦
            let s' = others.at_insert s in
            let s'' = others.at_append (record s' { jobs = insert r.id r s'.jobs }) in
            let inserted = insert-IsKeyed s'.jobs r.id r refl (keeps.0 s keyed) in
            rw room
              (submit_absent others disk r s'' keeps (keeps.1 _ inserted) quiet logs (rw room at e))
      ]
