-- ===== src/Jobs/Worker/Pool.antt =====
-- The count of ready workers over a life of a worker (src/jobs/worker.rs).
use unlimited_ocr_server.Prelude.{
  ℕ, ◌+◌, ◌-◌, ◌^◌, ◌<◌, ◌≤◌, ◌≡◌, refl, ◌∙◌, ap, sym, List, [], ◌∷◌, Bool, true, false, arith, All,
  Bool-cases, inl, inr, if◌then◌else◌,
}
use unlimited_ocr_server.Types.{Uuid, job_timed_out, worker_task_failed, inference_failed}
use unlimited_ocr_server.Config.{Config}
use unlimited_ocr_server.State.Workers.{WorkerPoolState, mark_ready, mark_stopped}
use unlimited_ocr_server.Jobs.Webhook.{Http, WebhookClient}
use unlimited_ocr_server.Jobs.Server.{JobRequest, Channel, Server}
use unlimited_ocr_server.Jobs.Worker.{Finishing, AtWaits, JobResult, done, error, finish_job}
use unlimited_ocr_server.Jobs.Worker.Counters.{finish_job-keeps}
use unlimited_ocr_server.Jobs.Worker.Loop.{
  queue_stops, queue_goes_on, started, ended, stopped, loop_closes, loop_restarts,
}
use unlimited_ocr_server.Jobs.Worker.Run.{
  inferred, infer_error, join_error, InferenceRunResult, completed, timed_out, Run, Life,
  model_loaded, wait_for_inference, initialize_worker, handle_completed_inference,
  handle_inference_result, start_request, process_worker_request, process_worker_queue, worker_loop,
}

minus_zero : (n : ℕ) → n ≡ n - 0
minus_zero n = omega arith

-- How often handling a result takes the worker out of the pool.
abbrev pub stops : InferenceRunResult → ℕ
stops (completed _) = 0
stops timed_out = 1

-- Whether the request makes the worker restart.
abbrev pub restarts : InferenceRunResult → Bool
restarts timed_out = true
restarts (completed (join_error _)) = true
restarts (completed (inferred _)) = false
restarts (completed (infer_error _)) = false

stops-goes_on : (w : InferenceRunResult) → restarts w ≡ false → stops w ≡ 0
stops-goes_on (completed _) h = refl
stops-goes_on timed_out h = ground arith

mark_stopped-ready : (w : WorkerPoolState) → (mark_stopped w).ready ≡ w.ready - 1
unfolding mark_stopped
mark_stopped-ready w = ground arith

module _ (c : Channel) (config : Config) (http : Http) (webhooks : WebhookClient) where
  -- Other tasks leave the pool as it is.
  abbrev pub KeepsPool : (Server c → Server c) → Type 0
  KeepsPool others = (s : Server c) → (others s).workers ≡ s.workers

  -- They do so during the run, and at the waits that end it.
  abbrev pub IsQuiet : JobRequest × Run c → Type 0
  IsQuiet (q, run) = KeepsPool run.meanwhile × AtWaits KeepsPool run.finishing

  finish_job-workers :
      (f : Finishing c) (id : Uuid) (result : JobResult) (s : Server c)
      → AtWaits KeepsPool f
      → (finish_job c config http webhooks f id result s).workers ≡ s.workers
  finish_job-workers f id result s quiet =
      finish_job-keeps c config http webhooks (λ t. t.workers ≡ s.workers) f id result s
        (λ t u _ same h. same ∙ h)
        (record {
          lock = λ t h. quiet.lock t ∙ h;
          append = λ t h. quiet.append t ∙ h;
          webhook = λ t h. quiet.webhook t ∙ h;
          cleanup = λ t h. quiet.cleanup t ∙ h;
          retain = λ t h. quiet.retain t ∙ h;
        })
        refl

  -- How many of the requests that a worker gets to, up to the first one that makes it restart,
  -- time out.
  abbrev pub timeouts : List (JobRequest × Run c) → ℕ
  timeouts [] = 0
  timeouts ((q, run) ∷ rest) =
      let w = wait_for_inference c config run in
      let later = timeouts rest in if restarts w then stops w else later

  handle-ready :
      (id : Uuid) (e : ℕ) (f : Finishing c) (result : InferenceRunResult) (s : Server c)
      → AtWaits KeepsPool f
      → (handle_inference_result c config http webhooks id e f result s).0.workers.ready
        ≡ s.workers.ready - stops result
  unfolding handle_inference_result handle_completed_inference mark_stopped
  handle-ready id e f (completed (inferred d)) s quiet =
      ap (λ w. w.ready) (finish_job-workers f id (done d) _ quiet) ∙ minus_zero s.workers.ready
  handle-ready id e f (completed (infer_error m)) s quiet =
      ap (λ w. w.ready) (finish_job-workers f id (error (inference_failed m)) _ quiet)
      ∙ minus_zero s.workers.ready
  handle-ready id e f (completed (join_error m)) s quiet =
      ap (λ w. w.ready) (finish_job-workers f id (error (worker_task_failed m)) _ quiet)
      ∙ minus_zero s.workers.ready
  handle-ready id e f timed_out s quiet =
      ap (λ w. w.ready)
        (finish_job-workers f id (error (job_timed_out config.job_timeout_seconds)) _ quiet)
      ∙ ground arith

  request-ready :
      (q : JobRequest) (run : Run c) (s : Server c)
      → IsQuiet (q, run)
      → (process_worker_request c config http webhooks q run s).0.workers.ready
        ≡ s.workers.ready - stops (wait_for_inference c config run)
  unfolding process_worker_request start_request
  request-ready q run s quiet =
      handle-ready q.id run.elapsed_ms run.finishing (wait_for_inference c config run) _ quiet.1
      ∙ ap (λ w. w.ready - stops (wait_for_inference c config run)) (quiet.0 _)

  handle-restart :
      (id : Uuid) (e : ℕ) (f : Finishing c) (result : InferenceRunResult) (s : Server c)
      → (handle_inference_result c config http webhooks id e f result s).1 ≡ restarts result
  unfolding handle_inference_result handle_completed_inference
  handle-restart id e f (completed (inferred d)) s = refl
  handle-restart id e f (completed (infer_error m)) s = refl
  handle-restart id e f (completed (join_error m)) s = refl
  handle-restart id e f timed_out s = refl

  request-restart :
      (q : JobRequest) (run : Run c) (s : Server c)
      → (process_worker_request c config http webhooks q run s).1
        ≡ restarts (wait_for_inference c config run)
  unfolding process_worker_request
  request-restart q run s =
      handle-restart q.id run.elapsed_ms run.finishing (wait_for_inference c config run)
        (run.meanwhile (start_request c config http webhooks run q.id s))

  queue-ready :
      (received : List (JobRequest × Run c)) (s : Server c)
      → All IsQuiet received
      → (process_worker_queue c config http webhooks received s).0.workers.ready
        ≡ s.workers.ready - timeouts received
  unfolding process_worker_queue
  queue-ready [] s quiet = ground arith
  queue-ready ((q, run) ∷ rest) s quiet =
      let one = request-ready q run s quiet.0 in
      let again = request-restart q run s in
      elim (Bool-cases (restarts (wait_for_inference c config run))) [
        | inl t ↦
            let here = queue_stops c config http webhooks q run rest s (again ∙ t) in
            let all : timeouts ((q, run) ∷ rest) ≡ stops (wait_for_inference c config run) =
              rw t refl in
            ap (λ x. x.0.workers.ready) here ∙ one ∙ ap (λ n. s.workers.ready - n) (sym all)
        | inr f ↦
            let here = queue_goes_on c config http webhooks q run rest s (again ∙ f) in
            let all : timeouts ((q, run) ∷ rest) ≡ timeouts rest = rw f refl in
            let none_here = stops-goes_on (wait_for_inference c config run) f in
            ap (λ x. x.0.workers.ready) here
            ∙ queue-ready rest (process_worker_request c config http webhooks q run s).0 quiet.1
            ∙ omega (arith, one, none_here, all)
      ]

  loop_over : (s : Server c) → worker_loop c config http webhooks [] s ≡ s
  unfolding worker_loop
  loop_over s = refl

  one_timeout : (w : InferenceRunResult) → stops w ≤ 1
  one_timeout (completed _) = omega arith
  one_timeout timed_out = omega arith

  timeouts_bound : (received : List (JobRequest × Run c)) → timeouts received ≤ 1
  timeouts_bound [] = omega arith
  timeouts_bound ((q, run) ∷ rest) =
      ground (arith, one_timeout (wait_for_inference c config run), timeouts_bound rest)

  loop_ends :
      (life : Life c) (s : Server c)
      → (started c config http webhooks life [] s).1 ≡ true
      → worker_loop c config http webhooks (life ∷ []) s ≡ stopped c config http webhooks life [] s
  loop_ends life s t = elim (Bool-cases (ended c config http webhooks life [] s).1) [
    | inr f ↦ loop_closes c config http webhooks life [] s t f
    | inl r ↦ loop_restarts c config http webhooks life [] s t r ∙ loop_over _
  ]

  -- If other tasks leave the pool alone during each of its runs and at the waits that end it, and the
  -- count of ready workers does not overflow: a worker that loads the model and then ends or restarts leaves that count as it
  -- found it, unless its last request timed out: the count then goes down by one more, as long as it
  -- is not zero.
  pub worker_loop-ready :
      (elapsed_ms : ℕ) (received : List (JobRequest × Run c)) (s : Server c)
      → All IsQuiet received
      → s.workers.ready + 1 < 2 ^ 64
      → (worker_loop c config http webhooks
          (record { start = model_loaded elapsed_ms; received = received } ∷ [])
          s).workers.ready
        ≡ s.workers.ready - timeouts received
  unfolding initialize_worker mark_ready
  worker_loop-ready elapsed_ms received s quiet small =
      let life : Life c = record { start = model_loaded elapsed_ms; received = received } in
      let begun = started c config http webhooks life [] s in
      let over = ended c config http webhooks life [] s in
      let queue = queue-ready received begun.0 quiet in
      let end = loop_ends life s refl in
      ap (λ x. x.workers.ready) end
      ∙ mark_stopped-ready over.0.workers
      ∙ omega (arith, queue, small)
