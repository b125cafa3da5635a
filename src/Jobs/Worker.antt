-- ===== src/Jobs/Worker.antt =====
-- src/jobs/worker.rs: a worker takes requests, runs the model and finishes the jobs. What the model,
-- the clock and the file system do during one request is the record `Run`; `meanwhile` is what other
-- tasks do while it runs.
pub mod Run
pub mod Finish
pub mod Cleanup
pub mod Loop
pub mod Counters
pub mod Outstanding
pub mod Pool
mod Tests
use mathlib.Core.Option.{Option, none, some}
use unlimited_ocr_server.Prelude.{
  ℕ, Bool, true, false, Text, text_eq, if◌then◌else◌, ◌&&◌, not, List, [], ◌∷◌, ◌++◌, retain, ◌==◌,
}
use unlimited_ocr_server.Types.{
  Uuid, Time, FilePath, JobRecord, InferenceMetadata, InputKind, upload, upload_pdf_page,
  local_pdf_page, local_path, other, running, succeeded, failed, ErrorMessage, job_timed_out,
  worker_task_failed, inference_failed,
}
use unlimited_ocr_server.Config.{Config}
use unlimited_ocr_server.State.Workers.{mark_ready, mark_failed, mark_stopped}
use unlimited_ocr_server.State.Metrics.{
  AppMetrics, record_job_started, record_job_succeeded, record_job_failed, record_job_timed_out,
  record_worker_restart, record_model_load, record_cleanup_failure,
}
use unlimited_ocr_server.Jobs.Map.{JobMap, get, update}
use unlimited_ocr_server.Jobs.Store.Files.{Append, append_jsonl}
use unlimited_ocr_server.Jobs.Store.Load.{Metadata}
use unlimited_ocr_server.Jobs.Store.Retention.{retain_recent_jobs}
use unlimited_ocr_server.Jobs.Webhook.{Http, WebhookClient, WebhookDeadLetter, send_webhook}
use unlimited_ocr_server.Jobs.Server.{JobRequest, Channel, Server}

-- Paths compare by component.
abbrev pub path_eq : FilePath → FilePath → Bool
path_eq [] [] = true
path_eq [] (_ ∷ _) = false
path_eq (_ ∷ _) [] = false
path_eq (a ∷ p) (b ∷ q) = text_eq a b && path_eq p q

abbrev pub path_starts_with : FilePath → FilePath → Bool
path_starts_with p [] = true
path_starts_with [] (_ ∷ _) = false
path_starts_with (a ∷ p) (b ∷ q) = text_eq a b && path_starts_with p q

unfoldable pub path_is_inside : FilePath → FilePath → Bool
path_is_inside path directory = path_starts_with path directory && not (path_eq path directory)

abbrev pub is_uploaded : InputKind → Bool
is_uploaded upload = true
is_uploaded upload_pdf_page = true
is_uploaded local_pdf_page = true
is_uploaded local_path = false
is_uploaded (other _) = false

unfoldable pub should_delete_image : Config → JobRecord → Bool
should_delete_image config r =
    is_uploaded r.input_kind && path_is_inside r.image_path config.images_dir

pub data Removal : Type 0 where
  removed not_found : Removal
  remove_failed : Text → Removal

pub data JobResult : Type 0 where
  done : InferenceMetadata → JobResult
  error : ErrorMessage → JobResult

-- What one call of `finish_job` meets: clock, file system, network, and what other tasks do while
-- it waits: for the lock of the map, for the append to the results, for the webhook, for the removal
-- of the image, and for the lock again.
pub record Finishing (c : Channel) : Type 0 where
  pub now : Time
  pub append : Append
  pub event_id : Uuid
  pub event_time : Time
  pub failed_at : Time
  pub dead_letter_error : Option Text
  pub removal : Removal
  pub at_lock : Server c → Server c
  pub at_append : Server c → Server c
  pub at_webhook : Server c → Server c
  pub at_cleanup : Server c → Server c
  pub at_retain : Server c → Server c

-- A property of what other tasks do, at each wait of `finish_job`
pub record AtWaits {c : Channel} (P : (Server c → Server c) → Type 0) (f : Finishing c)
    : Type 0 where
  pub lock : P f.at_lock
  pub append : P f.at_append
  pub webhook : P f.at_webhook
  pub cleanup : P f.at_cleanup
  pub retain : P f.at_retain

unfoldable pub mark_running : Time → Uuid → JobMap → JobMap
mark_running now id jobs = update id (λ r. record r { status = running; updated_at = now }) jobs

unfoldable pub finish_record : Time → JobResult → JobRecord → JobRecord
finish_record now (done metadata) r = record r {
  updated_at = now;
  status = succeeded;
  result = some metadata;
  error = none;
}
finish_record now (error message) r = record r {
  updated_at = now;
  status = failed;
  error = some message;
}

abbrev pub append_letter :
    Option WebhookDeadLetter → List WebhookDeadLetter → List WebhookDeadLetter
append_letter none letters = letters
append_letter (some letter) letters = letters ++ letter ∷ []

module _ (c : Channel) where
  abbrev remove_image : Removal → FilePath → Server c → Server c
  remove_image removed path s = record s { images = retain (λ p. not (path_eq p path)) s.images }
  remove_image not_found path s = s
  remove_image (remove_failed e) path s = record s { metrics = record_cleanup_failure s.metrics }

  unfoldable pub cleanup_job_artifacts : Config → Removal → JobRecord → Server c → Server c
  cleanup_job_artifacts config removal r s =
      if should_delete_image config r then remove_image removal r.image_path s else s

  module _ (config : Config) (http : Http) (webhooks : WebhookClient) where
    abbrev pub append_result : Append → JobRecord → Server c → Server c
    append_result outcome r s = record s {
      files = record s.files { results = (append_jsonl outcome r s.files.results).0 };
    }

    abbrev pub call_webhook : Finishing c → JobRecord → Server c → Server c
    call_webhook f r s =
        let (metrics, letter) =
          send_webhook http webhooks f.event_id f.event_time f.failed_at f.dead_letter_error r
            s.metrics in
        record s { metrics = metrics; dead_letters = append_letter letter s.dead_letters }

    abbrev pub prune_jobs : Server c → Server c
    prune_jobs s = record s { jobs = retain_recent_jobs s.jobs config.job_retention_limit }

    -- `finish_job` once it holds the final record.
    unfoldable pub finish_found : Finishing c → JobRecord → Server c → Server c
    finish_found f r s =
        let logged = append_result f.append r (f.at_append s) in
        let called = call_webhook f r (f.at_webhook logged) in
        let cleaned = cleanup_job_artifacts config f.removal r (f.at_cleanup called) in
        prune_jobs (f.at_retain cleaned)

    -- `finish_job` once it holds the lock of the map.
    unfoldable pub finish_locked : Finishing c → Uuid → JobResult → Server c → Server c
    finish_locked f id result s = elim (get s.jobs id) [
      | none ↦ s
      | some r ↦
          finish_found f (finish_record f.now result r)
            (record s { jobs = update id (finish_record f.now result) s.jobs })
    ]

    unfoldable pub finish_job : Finishing c → Uuid → JobResult → Server c → Server c
    unfolding finish_locked
    finish_job f id result s = finish_locked f id result (f.at_lock s)
