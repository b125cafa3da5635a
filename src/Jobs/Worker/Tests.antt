-- ===== src/Jobs/Worker/Tests.antt =====
-- Jobs that end, time out and are forgotten (src/jobs/worker.rs).
use unlimited_ocr_server.Prelude.{
  ◌-◌, ◌≤◌, ◌<◌, ◌≡◌, refl, [], ◌∷◌, none, some, codes, arith, length, true, false, ◌⊎◌, inl, inr,
  ◌==◌, if◌then◌else◌,
}
use unlimited_ocr_server.Prelude.Membership.{In}
use unlimited_ocr_server.Types.{Uuid, JobRecord, running}
use unlimited_ocr_server.Types.Task.{from_text_input}
use unlimited_ocr_server.Jobs.Map.{get, IsKeyed}
use unlimited_ocr_server.Jobs.Samples.{
  one_slot, flaky, patient, config, image_of, job, three, three-IsKeyed, server, metadata,
  finishing, run_of,
}
use unlimited_ocr_server.Jobs.Server.{JobRequest, Server}
use unlimited_ocr_server.Jobs.Worker.{done, finish_job, AtWaits}
use unlimited_ocr_server.Jobs.Worker.Finish.{IsFinal, KeepsJobs, finish_job_outcome}
use unlimited_ocr_server.Jobs.Worker.Cleanup.{MayRemove, KeepsImages, finish_job-images}
use unlimited_ocr_server.Jobs.Worker.Counters.{Outstanding}
use unlimited_ocr_server.Jobs.Worker.Outstanding.{Steady, worker_loop-Outstanding}
use unlimited_ocr_server.Jobs.Worker.Pool.{KeepsPool, worker_loop-ready}
use unlimited_ocr_server.Jobs.Worker.Run.{
  Life, model_loaded, inferred, join_error, wait_for_inference, worker_loop,
}

abbrev request : Uuid → JobRequest
request id = record { id = id; image_path = image_of id; task = from_text_input none }

abbrev after_second : Server one_slot
after_second = finish_job one_slot config flaky patient finishing 2 (done metadata) server

-- No other task runs at the waits of `finish_job`.
quiet_jobs : AtWaits (KeepsJobs one_slot config flaky patient) finishing
quiet_jobs = record {
  lock = λ s. refl;
  append = λ s. refl;
  webhook = λ s. refl;
  cleanup = λ s. refl;
  retain = λ s. refl;
}

quiet_pool : AtWaits (KeepsPool one_slot config flaky patient) finishing
quiet_pool = record {
  lock = λ s. refl;
  append = λ s. refl;
  webhook = λ s. refl;
  cleanup = λ s. refl;
  retain = λ s. refl;
}

quiet_images : AtWaits (KeepsImages one_slot config flaky patient) finishing
quiet_images = record {
  lock = λ s p m. m;
  append = λ s p m. m;
  webhook = λ s p m. m;
  cleanup = λ s p m. m;
  retain = λ s p m. m;
}

quiet_metrics : AtWaits (Steady one_slot config flaky patient 1) finishing
quiet_metrics = record {
  lock = λ s h. h;
  append = λ s h. h;
  webhook = λ s h. h;
  cleanup = λ s h. h;
  retain = λ s h. h;
}

finish_job_outcome_example :
    (final : JobRecord) × (IsFinal 20 (done metadata) (job 2 running 9) final
      × (((k : Uuid)
            → ((get after_second.jobs k ≡ none) × (2 < length three))
              ⊎ (get after_second.jobs k ≡ (if 2 == k then some final else get three k)))
          × (IsKeyed after_second.jobs × (length after_second.jobs ≤ 2))))
unfolding get
finish_job_outcome_example =
    finish_job_outcome one_slot config flaky patient finishing 2 (done metadata) server
      (job 2 running 9) quiet_jobs three-IsKeyed refl

finish_job-images_example :
    In (image_of 3) after_second.images
    ⊎ ((r : JobRecord) × (get (finishing.at_lock server).jobs 2 ≡ some r)
        × MayRemove one_slot config flaky patient r (image_of 3))
finish_job-images_example =
    finish_job-images one_slot config flaky patient finishing 2 (done metadata) server (image_of 3)
      quiet_images (inr (inr (inl refl)))

-- A first life that ends by a panic, and a second one that ends by a timeout.
abbrev panicking : Life one_slot
panicking = record {
  start = model_loaded 8;
  received =
      (request 1, run_of true (inferred metadata))
      ∷ (request 2, run_of true (join_error (codes "panic")))
      ∷ [];
}

abbrev timing_out : Life one_slot
timing_out = record {
  start = model_loaded 8;
  received = (request 3, run_of false (inferred metadata)) ∷ [];
}

worker_loop-Outstanding_example :
    Outstanding 1
      (worker_loop one_slot config flaky patient (panicking ∷ timing_out ∷ []) server).metrics
worker_loop-Outstanding_example =
    worker_loop-Outstanding one_slot config flaky patient 1 (panicking ∷ timing_out ∷ []) server
      (
        (((λ s h. h), quiet_metrics), (((λ s h. h), quiet_metrics), tt)),
        ((((λ s h. h), quiet_metrics), tt), tt),
      )
      refl

-- One worker is ready. Another one loads the model and times out once: no worker counts as ready.
worker_loop-ready_example :
    (worker_loop one_slot config flaky patient (timing_out ∷ []) server).workers.ready ≡ 1 - 1
unfolding wait_for_inference
worker_loop-ready_example =
    worker_loop-ready one_slot config flaky patient 8 timing_out.received server
      (((λ s. refl), quiet_pool), tt) (ground arith)
