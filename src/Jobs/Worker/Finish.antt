-- ===== src/Jobs/Worker/Finish.antt =====
-- What `finish_job` of src/jobs/worker.rs does to the job map.
use mathlib.Core.Path.{subst}
use unlimited_ocr_server.Prelude.{
  ◌≡◌, ◌≤◌, ◌<◌, refl, ◌∙◌, ap, sym, ◌⊎◌, inl, inr, none, some, arith, ◌==◌, if◌then◌else◌,
  Bool-cases, length,
}
use unlimited_ocr_server.Types.{Uuid, Time, JobRecord, succeeded, failed}
use unlimited_ocr_server.Config.{Config}
use unlimited_ocr_server.Jobs.Map.{
  JobMap, get, update, IsKeyed, get-update, update-IsKeyed, length-update,
}
use unlimited_ocr_server.Jobs.Store.Retention.{retain_recent_jobs}
use unlimited_ocr_server.Jobs.Store.Recent.{
  length-retain_recent_jobs, retain_recent_jobs-IsKeyed, retain_recent_jobs_keeps,
}
use unlimited_ocr_server.Jobs.Webhook.{Http, WebhookClient}
use unlimited_ocr_server.Jobs.Server.{Channel, Server}
use unlimited_ocr_server.Jobs.Worker.{
  Finishing, AtWaits, Removal, JobResult, done, error, finish_record, cleanup_job_artifacts,
  finish_found, finish_locked, finish_job,
}

-- What the record of a finished job says: the time, the status, the result and the error are those of
-- the result, and the id, kind, image, URL and creation time are those that the record had.
pub record IsFinal (now : Time) (result : JobResult) (before after : JobRecord) : Type 0 where
  pub same_id : after.id ≡ before.id
  pub same_kind : after.input_kind ≡ before.input_kind
  pub same_image : after.image_path ≡ before.image_path
  pub same_url : after.webhook_url ≡ before.webhook_url
  pub same_creation : after.created_at ≡ before.created_at
  pub updated : after.updated_at ≡ now
  pub status : after.status ≡ elim result [ done metadata ↦ succeeded | error message ↦ failed ]
  pub result_field :
      after.result ≡ elim result [ done metadata ↦ some metadata | error message ↦ before.result ]
  pub error_field :
      after.error ≡ elim result [ done metadata ↦ none | error message ↦ some message ]

pub finish_record-IsFinal :
    (now : Time) (result : JobResult) (r : JobRecord)
    → IsFinal now result r (finish_record now result r)
unfolding finish_record
finish_record-IsFinal now (done m) r = record {
  same_id = refl;
  same_kind = refl;
  same_image = refl;
  same_url = refl;
  same_creation = refl;
  updated = refl;
  status = refl;
  result_field = refl;
  error_field = refl;
}
finish_record-IsFinal now (error e) r = record {
  same_id = refl;
  same_kind = refl;
  same_image = refl;
  same_url = refl;
  same_creation = refl;
  updated = refl;
  status = refl;
  result_field = refl;
  error_field = refl;
}

module _ (c : Channel) (config : Config) (http : Http) (webhooks : WebhookClient) where
  -- Other tasks leave the map as it is.
  abbrev pub KeepsJobs : (Server c → Server c) → Type 0
  KeepsJobs others = (s : Server c) → (others s).jobs ≡ s.jobs

  cleanup-jobs :
      (fate : Removal) (r : JobRecord) (s : Server c)
      → (cleanup_job_artifacts c config fate r s).jobs ≡ s.jobs
  unfolding cleanup_job_artifacts
  cleanup-jobs fate r s = ground arith

  finish_found-jobs :
      (f : Finishing c) (r : JobRecord) (s : Server c)
      → AtWaits KeepsJobs f
      → (finish_found c config http webhooks f r s).jobs
        ≡ retain_recent_jobs s.jobs config.job_retention_limit
  unfolding finish_found
  finish_found-jobs f r s quiet =
      ap (λ j. retain_recent_jobs j config.job_retention_limit)
        (quiet.retain _
          ∙ cleanup-jobs f.removal r _
          ∙ quiet.cleanup _
          ∙ quiet.webhook _
          ∙ quiet.append s)

  pub finish_job-finish_found :
      (f : Finishing c) (id : Uuid) (result : JobResult) (s : Server c) {r : JobRecord}
      → get (f.at_lock s).jobs id ≡ some r
      → finish_job c config http webhooks f id result s
        ≡ finish_found c config http webhooks f
            (finish_record f.now result r)
            (record (f.at_lock s) {
              jobs = update id (finish_record f.now result) (f.at_lock s).jobs;
            })
  unfolding finish_job finish_locked
  finish_job-finish_found f id result s here = ground arith

  -- A job that is no longer in the map is finished without any effect at all.
  pub finish_job_missing :
      (f : Finishing c) (id : Uuid) (result : JobResult) (s : Server c)
      → get (f.at_lock s).jobs id ≡ none
      → finish_job c config http webhooks f id result s ≡ f.at_lock s
  unfolding finish_job finish_locked
  finish_job_missing f id result s gone = ground arith

  module _ (f : Finishing c) (id : Uuid) (result : JobResult) (s : Server c) (r : JobRecord)
      (quiet : AtWaits KeepsJobs f) (keyed : IsKeyed s.jobs) (here : get s.jobs id ≡ some r) where
    abbrev finished : JobMap
    finished = update id (finish_record f.now result) s.jobs

    finish_job-jobs :
        (finish_job c config http webhooks f id result s).jobs
        ≡ retain_recent_jobs finished config.job_retention_limit
    finish_job-jobs =
        let found : get (f.at_lock s).jobs id ≡ some r = ap (λ j. get j id) (quiet.lock s) ∙ here in
        ap (λ x. x.jobs) (finish_job-finish_found f id result s found)
        ∙ finish_found-jobs f (finish_record f.now result r) _ quiet
        ∙ ap
            (λ j.
              retain_recent_jobs (update id (finish_record f.now result) j)
                config.job_retention_limit)
            (quiet.lock s)

    finished-get :
        (k : Uuid)
        → get finished k ≡ (if id == k then some (finish_record f.now result r) else get s.jobs k)
    finished-get k = elim (Bool-cases (id == k)) [
      | inl t ↦
          let same : id ≡ k = ground arith in
          let at : get s.jobs k ≡ some r = ap (get s.jobs) (sym same) ∙ here in
          get-update s.jobs id k (finish_record f.now result) ∙ rw (t, at)
      | inr n ↦ get-update s.jobs id k (finish_record f.now result) ∙ rw n
    ]

    finished-length : length finished ≡ length s.jobs
    finished-length = length-update id (finish_record f.now result) s.jobs

    -- Finishing a job of a keyed map that no other task changes meanwhile: each job of the map is
    -- still there, the finished one with the status, result, error and time of its end and the id, kind,
    -- image, URL and creation time it had, or was dropped; if the map is within the
    -- retention limit, none is dropped; the map stays keyed and holds at most the limit.
    pub finish_job_outcome :
        let after = (finish_job c config http webhooks f id result s).jobs in
        (final : JobRecord) × (IsFinal f.now result r final
          × (((k : Uuid)
                → ((get after k ≡ none) × (config.job_retention_limit < length s.jobs))
                  ⊎ (get after k ≡ (if id == k then some final else get s.jobs k)))
              × (IsKeyed after × (length after ≤ config.job_retention_limit))))
    finish_job_outcome =
        let limit = config.job_retention_limit in
        let final = finish_record f.now result r in
        let kept =
          update-IsKeyed s.jobs id _ (λ x. (finish_record-IsFinal f.now result x).same_id) keyed in
        (
          final,
          (
            finish_record-IsFinal f.now result r,
            subst
                (λ jobs.
                  ((k : Uuid)
                    → ((get jobs k ≡ none) × (limit < length s.jobs))
                      ⊎ (get jobs k ≡ (if id == k then some final else get s.jobs k)))
                  × (IsKeyed jobs × (length jobs ≤ limit)))
                (sym finish_job-jobs)
                (
                  λ k. elim (retain_recent_jobs_keeps finished limit k) [
                    | inl (gone, over) ↦ inl (gone, omega (arith, finished-length))
                    | inr same ↦ inr (same ∙ finished-get k)
                  ],
                  (
                    retain_recent_jobs-IsKeyed finished limit kept,
                    omega (arith, length-retain_recent_jobs finished limit kept),
                  ),
                ),
          ),
        )
