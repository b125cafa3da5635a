-- ===== src/Jobs/Worker/Loop.antt =====
-- Equations of the two loops of src/jobs/worker.rs, one for each way on.
use unlimited_ocr_server.Prelude.{◌≡◌, List, ◌∷◌, Bool, true, false, arith}
use unlimited_ocr_server.Config.{Config}
use unlimited_ocr_server.State.Workers.{mark_stopped}
use unlimited_ocr_server.Jobs.Webhook.{Http, WebhookClient}
use unlimited_ocr_server.Jobs.Server.{JobRequest, Channel, Server}
use unlimited_ocr_server.Jobs.Worker.Run.{
  Run, Life, initialize_worker, process_worker_request, process_worker_queue, worker_loop,
}

module _ (c : Channel) (config : Config) (http : Http) (webhooks : WebhookClient) where
  pub queue_stops :
      (q : JobRequest) (run : Run c) (rest : List (JobRequest × Run c)) (s : Server c)
      → (process_worker_request c config http webhooks q run s).1 ≡ true
      → process_worker_queue c config http webhooks ((q, run) ∷ rest) s
        ≡ ((process_worker_request c config http webhooks q run s).0, true)
  unfolding process_worker_queue
  queue_stops q run rest s h = ground arith

  pub queue_goes_on :
      (q : JobRequest) (run : Run c) (rest : List (JobRequest × Run c)) (s : Server c)
      → (process_worker_request c config http webhooks q run s).1 ≡ false
      → process_worker_queue c config http webhooks ((q, run) ∷ rest) s
        ≡ process_worker_queue c config http webhooks rest
            (process_worker_request c config http webhooks q run s).0
  unfolding process_worker_queue
  queue_goes_on q run rest s h = ground arith

  module _ (life : Life c) (lives : List (Life c)) (s : Server c) where
    abbrev pub started : Server c × Bool
    started = initialize_worker c life.start s

    abbrev pub ended : Server c × Bool
    ended = process_worker_queue c config http webhooks life.received started.0

    abbrev pub stopped : Server c
    stopped = record ended.0 { workers = mark_stopped ended.0.workers }

    pub loop_not_ready :
        started.1 ≡ false → worker_loop c config http webhooks (life ∷ lives) s ≡ started.0
    unfolding worker_loop
    loop_not_ready h = ground arith

    pub loop_closes :
        started.1 ≡ true
        → ended.1 ≡ false
        → worker_loop c config http webhooks (life ∷ lives) s ≡ stopped
    unfolding worker_loop
    loop_closes h k = ground arith

    pub loop_restarts :
        started.1 ≡ true
        → ended.1 ≡ true
        → worker_loop c config http webhooks (life ∷ lives) s
          ≡ worker_loop c config http webhooks lives stopped
    unfolding worker_loop
    loop_restarts h k = ground arith
