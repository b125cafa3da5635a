-- ===== src/Jobs/Worker/Run.antt =====
-- src/jobs/worker.rs: one request, and the loop of a worker. A worker's life is an initialisation
-- and the requests that it receives until it restarts or the channel closes.
use unlimited_ocr_server.Prelude.{ℕ, Bool, true, false, Text, if◌then◌else◌, ◌==◌, List, [], ◌∷◌}
use unlimited_ocr_server.Types.{
  Uuid, Time, InferenceMetadata, job_timed_out, worker_task_failed, inference_failed,
}
use unlimited_ocr_server.Config.{Config}
use unlimited_ocr_server.State.Workers.{mark_ready, mark_failed, mark_stopped}
use unlimited_ocr_server.State.Metrics.{
  record_job_started, record_job_succeeded, record_job_failed, record_job_timed_out,
  record_worker_restart, record_model_load,
}
use unlimited_ocr_server.Jobs.Webhook.{Http, WebhookClient}
use unlimited_ocr_server.Jobs.Server.{JobRequest, Channel, Server}
use unlimited_ocr_server.Jobs.Worker.{Finishing, done, error, mark_running, finish_job}

-- What the blocking task comes to: the worker with the model's result, or a panic.
pub data BlockingInferenceResult : Type 0 where
  inferred : InferenceMetadata → BlockingInferenceResult
  infer_error : Text → BlockingInferenceResult
  join_error : Text → BlockingInferenceResult

pub data InferenceRunResult : Type 0 where
  completed : BlockingInferenceResult → InferenceRunResult
  timed_out : InferenceRunResult

pub data Initialization : Type 0 where
  model_loaded : (elapsed_ms : ℕ) → Initialization
  load_failed : Text → Initialization
  load_panicked : Text → Initialization

module _ (c : Channel) where
  pub record Run : Type 0 where
    pub started_at : Time
    pub within_timeout : Bool
    pub result : BlockingInferenceResult
    pub elapsed_ms : ℕ
    pub finishing : Finishing c
    pub meanwhile : Server c → Server c

  pub record Life : Type 0 where
    pub start : Initialization
    pub received : List (JobRequest × Run)

  -- No timeout is set at zero seconds.
  unfoldable pub wait_for_inference : Config → Run → InferenceRunResult
  wait_for_inference config run =
      if config.job_timeout_seconds == 0
      then completed run.result
      else if run.within_timeout
      then completed run.result
      else timed_out

  -- `initialize_worker`; `true` if there is a worker.
  unfoldable pub initialize_worker : Initialization → Server c → Server c × Bool
  initialize_worker (model_loaded elapsed_ms) s = (
    record s { metrics = record_model_load elapsed_ms s.metrics; workers = mark_ready s.workers },
    true,
  )
  initialize_worker (load_failed e) s = (record s { workers = mark_failed s.workers }, false)
  initialize_worker (load_panicked e) s = (record s { workers = mark_failed s.workers }, false)

  module _ (config : Config) (http : Http) (webhooks : WebhookClient) where
    -- The result says whether the worker is to restart.
    unfoldable pub handle_completed_inference :
        Uuid → ℕ → Finishing c → BlockingInferenceResult → Server c → Server c × Bool
    handle_completed_inference id elapsed_ms f (inferred metadata) s =
        let s' = record s { metrics = record_job_succeeded elapsed_ms s.metrics } in
        (finish_job c config http webhooks f id (done metadata) s', false)
    handle_completed_inference id elapsed_ms f (infer_error e) s =
        let s' = record s { metrics = record_job_failed elapsed_ms s.metrics } in
        (finish_job c config http webhooks f id (error (inference_failed e)) s', false)
    handle_completed_inference id elapsed_ms f (join_error e) s =
        let s' = record s {
          metrics = record_worker_restart (record_job_failed elapsed_ms s.metrics);
        } in
        (finish_job c config http webhooks f id (error (worker_task_failed e)) s', true)

    unfoldable pub handle_inference_result :
        Uuid → ℕ → Finishing c → InferenceRunResult → Server c → Server c × Bool
    handle_inference_result id elapsed_ms f (completed result) s =
        handle_completed_inference id elapsed_ms f result s
    handle_inference_result id elapsed_ms f timed_out s =
        let s' = record s {
          metrics = record_worker_restart (record_job_timed_out elapsed_ms s.metrics);
          workers = mark_stopped s.workers;
        } in
        let message = job_timed_out config.job_timeout_seconds in
        (finish_job c config http webhooks f id (error message) s', true)

    unfoldable pub start_request : Run → Uuid → Server c → Server c
    start_request run id s = record s {
      metrics = record_job_started s.metrics;
      jobs = mark_running run.started_at id s.jobs;
    }

    unfoldable pub process_worker_request : JobRequest → Run → Server c → Server c × Bool
    process_worker_request request run s =
        handle_inference_result request.id run.elapsed_ms run.finishing
          (wait_for_inference config run) (run.meanwhile (start_request run request.id s))

    -- Received requests until one asks for a restart; the list's end is the channel's close.
    unfoldable pub process_worker_queue : List (JobRequest × Run) → Server c → Server c × Bool
    process_worker_queue [] s = (s, false)
    process_worker_queue ((request, run) ∷ rest) s =
        let (s', restart) = process_worker_request request run s in
        elim restart [ true ↦ (s', true) | false ↦ process_worker_queue rest s' ]

    -- The loop over a worker's lives; the list ends where the observation does.
    unfoldable pub worker_loop : List Life → Server c → Server c
    worker_loop [] s = s
    worker_loop (life ∷ lives) s =
        let (s', ready) = initialize_worker life.start s in
        let (s'', restart) = process_worker_queue life.received s' in
        let stopped = record s'' { workers = mark_stopped s''.workers } in
        elim ready [
          | false ↦ s'
          | true ↦ elim restart [ true ↦ worker_loop lives stopped | false ↦ stopped ]
        ]
