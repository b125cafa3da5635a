-- ===== src/Jobs/Worker/Outstanding.antt =====
-- The jobs in flight, by the counters (src/jobs/worker.rs with src/state.rs).
use mathlib.Core.Path.{subst}
use unlimited_ocr_server.Prelude.{ℕ, suc, ◌≡◌, sym, List, [], ◌∷◌, arith, All, Bool-cases, inl, inr}
use unlimited_ocr_server.Types.{Uuid, job_timed_out, worker_task_failed, inference_failed}
use unlimited_ocr_server.Config.{Config}
use unlimited_ocr_server.State.Metrics.{
  AppMetrics, record_job_started, record_job_succeeded, record_job_failed, record_job_timed_out,
  record_worker_restart, record_model_load,
}
use unlimited_ocr_server.Jobs.Webhook.{Http, WebhookClient}
use unlimited_ocr_server.Jobs.Server.{JobRequest, Channel, Server}
use unlimited_ocr_server.Jobs.Worker.{Finishing, AtWaits, JobResult, done, error, finish_job}
use unlimited_ocr_server.Jobs.Worker.Counters.{Outstanding, SameCounters, finish_job-keeps}
use unlimited_ocr_server.Jobs.Worker.Loop.{
  queue_stops, queue_goes_on, started, ended, loop_not_ready, loop_closes, loop_restarts,
}
use unlimited_ocr_server.Jobs.Worker.Run.{
  inferred, infer_error, join_error, InferenceRunResult, completed, timed_out, Run, Life,
  Initialization, model_loaded, load_failed, load_panicked, wait_for_inference, initialize_worker,
  handle_completed_inference, handle_inference_result, start_request, process_worker_request,
  process_worker_queue, worker_loop,
}

Outstanding-same :
    (n : ℕ) (m m' : AppMetrics) → SameCounters m m' → Outstanding n m → Outstanding n m'
Outstanding-same n m m' same h = omega (arith, same.succeeded, same.failed, same.started, h)

Outstanding-started :
    (n : ℕ) (m : AppMetrics) → Outstanding n m → Outstanding (suc n) (record_job_started m)
unfolding record_job_started
Outstanding-started n m h = omega arith

Outstanding-succeeded :
    (n e : ℕ) (m : AppMetrics) → Outstanding (suc n) m → Outstanding n (record_job_succeeded e m)
unfolding record_job_succeeded
Outstanding-succeeded n e m h = omega arith

Outstanding-failed :
    (n e : ℕ) (m : AppMetrics) → Outstanding (suc n) m → Outstanding n (record_job_failed e m)
unfolding record_job_failed
Outstanding-failed n e m h = omega arith

Outstanding-timed_out :
    (n e : ℕ) (m : AppMetrics) → Outstanding (suc n) m → Outstanding n (record_job_timed_out e m)
unfolding record_job_timed_out
Outstanding-timed_out n e m h = omega arith

Outstanding-restart :
    (n : ℕ) (m : AppMetrics) → Outstanding n m → Outstanding n (record_worker_restart m)
unfolding record_worker_restart
Outstanding-restart n m h = h

module _ (c : Channel) (config : Config) (http : Http) (webhooks : WebhookClient) where
  -- What other tasks do leaves the number of jobs in flight as it is.
  abbrev pub Steady : ℕ → (Server c → Server c) → Type 0
  Steady n others = (s : Server c) → Outstanding n s.metrics → Outstanding n (others s).metrics

  Outstanding-finish :
      (n : ℕ) (f : Finishing c) (id : Uuid) (result : JobResult) (s : Server c)
      → AtWaits (Steady n) f
      → Outstanding n s.metrics
      → Outstanding n (finish_job c config http webhooks f id result s).metrics
  Outstanding-finish n f id result s steady =
      finish_job-keeps c config http webhooks (λ t. Outstanding n t.metrics) f id result s
        (λ t u same _. Outstanding-same n t.metrics u.metrics same)
        (record {
          lock = steady.lock;
          append = steady.append;
          webhook = steady.webhook;
          cleanup = steady.cleanup;
          retain = steady.retain;
        })

  handle-Outstanding :
      (n : ℕ) (id : Uuid) (e : ℕ) (f : Finishing c) (result : InferenceRunResult) (s : Server c)
      → AtWaits (Steady n) f
      → Outstanding (suc n) s.metrics
      → Outstanding n (handle_inference_result c config http webhooks id e f result s).0.metrics
  unfolding handle_inference_result handle_completed_inference
  handle-Outstanding n id e f (completed (inferred d)) s steady h =
      Outstanding-finish n f id (done d) _ steady (Outstanding-succeeded n e s.metrics h)
  handle-Outstanding n id e f (completed (infer_error m)) s steady h =
      Outstanding-finish n f id (error (inference_failed m)) _ steady
        (Outstanding-failed n e s.metrics h)
  handle-Outstanding n id e f (completed (join_error m)) s steady h =
      Outstanding-finish n f id (error (worker_task_failed m)) _ steady
        (Outstanding-restart n _ (Outstanding-failed n e s.metrics h))
  handle-Outstanding n id e f timed_out s steady h =
      Outstanding-finish n f id (error (job_timed_out config.job_timeout_seconds)) _ steady
        (Outstanding-restart n _ (Outstanding-timed_out n e s.metrics h))

  -- So it is during the run, while the job is in flight, and at the waits that end it.
  abbrev pub Balanced : ℕ → JobRequest × Run c → Type 0
  Balanced n (q, run) = Steady (suc n) run.meanwhile × AtWaits (Steady n) run.finishing

  request-Outstanding :
      (n : ℕ) (q : JobRequest) (run : Run c) (s : Server c)
      → Balanced n (q, run)
      → Outstanding n s.metrics
      → Outstanding n (process_worker_request c config http webhooks q run s).0.metrics
  unfolding process_worker_request start_request
  request-Outstanding n q run s balanced h =
      handle-Outstanding n q.id run.elapsed_ms run.finishing (wait_for_inference c config run) _
        balanced.1 (balanced.0 _ (Outstanding-started n s.metrics h))

  queue-Outstanding :
      (n : ℕ) (received : List (JobRequest × Run c)) (s : Server c)
      → All (Balanced n) received
      → Outstanding n s.metrics
      → Outstanding n (process_worker_queue c config http webhooks received s).0.metrics
  unfolding process_worker_queue
  queue-Outstanding n [] s balanced h = h
  queue-Outstanding n ((q, run) ∷ rest) s balanced h =
      let after = request-Outstanding n q run s balanced.0 h in
      elim (Bool-cases (process_worker_request c config http webhooks q run s).1) [
        | inl t ↦
            subst (λ x. Outstanding n x.0.metrics)
              (sym (queue_stops c config http webhooks q run rest s t)) after
        | inr f ↦
            subst (λ x. Outstanding n x.0.metrics)
              (sym (queue_goes_on c config http webhooks q run rest s f))
              (queue-Outstanding n rest _ balanced.1 after)
      ]

  initialize-Outstanding :
      (n : ℕ) (start : Initialization) (s : Server c)
      → Outstanding n s.metrics
      → Outstanding n (initialize_worker c start s).0.metrics
  unfolding initialize_worker record_model_load
  initialize-Outstanding n (model_loaded e) s h = h
  initialize-Outstanding n (load_failed e) s h = h
  initialize-Outstanding n (load_panicked e) s h = h

  -- However often a worker restarts, and however its jobs end, it leaves as many jobs in flight as
  -- it found, if what other tasks do meanwhile does: each start it counts is matched by exactly one
  -- success or failure.
  pub worker_loop-Outstanding :
      (n : ℕ) (lives : List (Life c)) (s : Server c)
      → All (λ life. All (Balanced n) life.received) lives
      → Outstanding n s.metrics
      → Outstanding n (worker_loop c config http webhooks lives s).metrics
  unfolding worker_loop
  worker_loop-Outstanding n [] s balanced h = h
  worker_loop-Outstanding n (life ∷ lives) s balanced h =
      let ready = initialize-Outstanding n life.start s h in
      let after =
        queue-Outstanding n life.received (initialize_worker c life.start s).0 balanced.0 ready in
      let at = λ (x y : Server c) (e : x ≡ y). subst (λ x. Outstanding n x.metrics) (sym e) in
      elim (Bool-cases (started c config http webhooks life lives s).1) [
        | inr f ↦ at _ _ (loop_not_ready c config http webhooks life lives s f) ready
        | inl t ↦ elim (Bool-cases (ended c config http webhooks life lives s).1) [
          | inr f ↦ at _ _ (loop_closes c config http webhooks life lives s t f) after
          | inl r ↦
              at _ _ (loop_restarts c config http webhooks life lives s t r)
                (worker_loop-Outstanding n lives _ balanced.1 after)
        ]
      ]
