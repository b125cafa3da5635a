-- ===== src/Jobs/Worker/Counters.antt =====
-- The job counters over the life of a worker (src/jobs/worker.rs with src/state.rs).
use mathlib.Core.Path.{subst}
use unlimited_ocr_server.Prelude.{ℕ, ◌+◌, ◌%◌, ◌^◌, ◌≡◌, refl, sym, inl, inr, arith, Option-cases}
use unlimited_ocr_server.Types.{Uuid, JobRecord}
use unlimited_ocr_server.Config.{Config}
use unlimited_ocr_server.State.Metrics.{AppMetrics, record_cleanup_failure, record_webhook_failure}
use unlimited_ocr_server.Jobs.Map.{get}
use unlimited_ocr_server.Jobs.Webhook.{
  Http, WebhookClient, send_webhook, count_failure, deliver, WebhookDeliveryResult, skipped,
  delivered, dead_letter_failed,
}
use unlimited_ocr_server.Jobs.Server.{Channel, Server}
use unlimited_ocr_server.Jobs.Worker.Finish.{finish_job_missing, finish_job-finish_found}
use unlimited_ocr_server.Jobs.Worker.{
  finish_record, Finishing, AtWaits, JobResult, Removal, cleanup_job_artifacts, finish_found,
  finish_job,
}

-- `n` jobs were started and have not ended yet. The counters are 64-bit words, so this counts
-- modulo 2^64.
abbrev pub Outstanding : ℕ → AppMetrics → Type 0
Outstanding n m = (m.jobs_succeeded + m.jobs_failed + n) % 2 ^ 64 ≡ m.jobs_started % 2 ^ 64

-- The counters of jobs are the same.
pub record SameCounters (m m' : AppMetrics) : Type 0 where
  pub started : m'.jobs_started ≡ m.jobs_started
  pub succeeded : m'.jobs_succeeded ≡ m.jobs_succeeded
  pub failed : m'.jobs_failed ≡ m.jobs_failed
  pub timed_out : m'.jobs_timed_out ≡ m.jobs_timed_out
  pub restarts : m'.worker_restarts ≡ m.worker_restarts

SameCounters-refl : (m : AppMetrics) → SameCounters m m
SameCounters-refl m = record {
  started = refl;
  succeeded = refl;
  failed = refl;
  timed_out = refl;
  restarts = refl;
}

count_failure-same :
    (result : WebhookDeliveryResult) (m : AppMetrics) → SameCounters m (count_failure result m)
unfolding count_failure record_webhook_failure
count_failure-same skipped m = ground arith
count_failure-same (delivered _ _) m = ground arith
count_failure-same (WebhookDeliveryResult.failed _ _ _) m = ground arith
count_failure-same (dead_letter_failed _ _ _ _) m = ground arith

module _ (c : Channel) (config : Config) (http : Http) (webhooks : WebhookClient) where
  send_webhook-same :
      (f : Finishing c) (r : JobRecord) (m : AppMetrics)
      → SameCounters m
          (send_webhook http webhooks f.event_id f.event_time f.failed_at f.dead_letter_error r m).0
  unfolding send_webhook
  send_webhook-same f r m = ground (
    arith,
    count_failure-same
        (deliver http webhooks f.event_id f.event_time f.failed_at f.dead_letter_error r).0 m,
  )

  cleanup-same :
      (fate : Removal) (r : JobRecord) (s : Server c)
      → SameCounters s.metrics (cleanup_job_artifacts c config fate r s).metrics
        × ((cleanup_job_artifacts c config fate r s).workers ≡ s.workers)
  unfolding cleanup_job_artifacts record_cleanup_failure
  cleanup-same fate r s = ground arith

  -- What `finish_job` itself does leaves a property of the server as it is.
  abbrev pub OfCounters : (Server c → Type 0) → Type 0
  OfCounters P =
      (s t : Server c) → SameCounters s.metrics t.metrics → t.workers ≡ s.workers → P s → P t

  -- What other tasks do keeps a property of the server.
  abbrev pub Keeps : (Server c → Type 0) → (Server c → Server c) → Type 0
  Keeps P others = (s : Server c) → P s → P (others s)

  finish_found-keeps :
      (P : Server c → Type 0) (f : Finishing c) (r : JobRecord) (s : Server c)
      → OfCounters P
      → AtWaits (Keeps P) f
      → P s
      → P (finish_found c config http webhooks f r s)
  unfolding finish_found
  finish_found-keeps P f r s own waits h =
      let same = SameCounters-refl in
      let called = waits.webhook _ (own _ _ (same _) refl (waits.append s h)) in
      let removed_ = waits.cleanup _ (own _ _ (send_webhook-same f r _) refl called) in
      let cleaned = cleanup-same f.removal r _ in
      own _ _ (same _) refl (waits.retain _ (own _ _ cleaned.0 cleaned.1 removed_))

  -- `finish_job` touches neither the counters of jobs nor those of workers: it keeps what they
  -- say, if other tasks do at each of its waits.
  pub finish_job-keeps :
      (P : Server c → Type 0) (f : Finishing c) (id : Uuid) (result : JobResult) (s : Server c)
      → OfCounters P
      → AtWaits (Keeps P) f
      → P s
      → P (finish_job c config http webhooks f id result s)
  finish_job-keeps P f id result s own waits h =
      let locked = waits.lock s h in
      elim (Option-cases (get (f.at_lock s).jobs id)) [
        | inl gone ↦
            subst P (sym (finish_job_missing c config http webhooks f id result s gone)) locked
        | inr (r, here) ↦
            subst P (sym (finish_job-finish_found c config http webhooks f id result s here)) (
              finish_found-keeps P f (finish_record f.now result r) _ own waits
                (own _ _ (SameCounters-refl _) refl locked))
      ]
