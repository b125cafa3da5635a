-- ===== src/Api/Views/Health.antt =====
-- The state of the service: health, readiness, metrics and get_job of src/api.rs. Readings of the
-- system and quotients of floats are parameters.
use unlimited_ocr_server.Prelude.{
  ℕ, length, Bool, Option, none, some, Text, codes, ltb, if◌then◌else◌,
}
use unlimited_ocr_server.Types.{Uuid, JobRecord, FilePath, ModelVariant}
use unlimited_ocr_server.Config.{Config}
use unlimited_ocr_server.State.Workers.{WorkerPoolState, WorkerPoolSnapshot}
use unlimited_ocr_server.State.Workers
use unlimited_ocr_server.State.Word.{fetch_add}
use unlimited_ocr_server.State.Metrics.{AppMetrics, MetricsSnapshot}
use unlimited_ocr_server.State.Metrics
use unlimited_ocr_server.Jobs.Map.{JobMap}
use unlimited_ocr_server.Jobs.Map
use unlimited_ocr_server.Api.Http.{Result, ok, err, ApiError}

pub record WorkerHealth : Type 0 where
  pub expected : ℕ
  pub ready : ℕ
  pub failed : ℕ

pub record HealthResponse : Type 0 where
  pub status : Text
  pub ready : Bool
  pub workers : WorkerHealth
  pub queued : ℕ
  pub model_path : FilePath
  pub model_variant : ModelVariant

pub record ReadinessResponse : Type 0 where
  pub status : Text
  pub ready : Bool
  pub workers : WorkerHealth
  pub queued : ℕ

unfoldable pub worker_health : WorkerPoolState → WorkerHealth
unfolding Workers.snapshot
worker_health workers =
    let seen = Workers.snapshot workers in
    record { expected = seen.expected; ready = seen.ready; failed = seen.failed }

unfoldable pub health : Config → WorkerPoolState → (queued : ℕ) → HealthResponse
unfolding worker_health
health config pool queued =
    let workers = worker_health pool in
    record {
      status = codes "ok";
      ready = ltb 0 workers.ready;
      workers = workers;
      queued = queued;
      model_path = config.model_path;
      model_variant = config.model_variant;
    }

-- The status code and the body
unfoldable pub readiness : WorkerPoolState → (queued : ℕ) → ℕ × ReadinessResponse
unfolding worker_health
readiness pool queued =
    let workers = worker_health pool in
    let ready = ltb 0 workers.ready in
    (
      if ready then 200 else 503,
      record {
        status = if ready then codes "ready" else codes "not_ready";
        ready = ready;
        workers = workers;
        queued = queued;
      },
    )

pub record GpuMemoryResponse : Type 0 where
  pub used_bytes : ℕ
  pub total_bytes : ℕ

pub record MetricsResponse : Type 0 where
  pub workers : WorkerHealth
  pub queued : ℕ
  pub http_requests_total : ℕ
  pub http_requests_failed : ℕ
  pub total_request_ms : ℕ
  pub average_request_ms : Option ℕ
  pub jobs_started : ℕ
  pub jobs_succeeded : ℕ
  pub jobs_failed : ℕ
  pub jobs_timed_out : ℕ
  pub worker_restarts : ℕ
  pub total_inference_ms : ℕ
  pub average_inference_ms : Option ℕ
  pub model_load_ms : Option ℕ
  pub webhook_failures : ℕ
  pub cleanup_failures : ℕ
  pub retained_jobs : ℕ
  pub process_memory_rss_bytes : Option ℕ
  pub gpu_memory : Option GpuMemoryResponse

-- `ratio` is the quotient of two numbers as an f64; a sum of counters wraps.
unfoldable pub metrics :
    (ratio : ℕ → ℕ → ℕ)
    → WorkerPoolState
    → AppMetrics
    → (queued : ℕ) → JobMap
    → (memory : Option ℕ) → Option GpuMemoryResponse
    → MetricsResponse
unfolding worker_health Metrics.snapshot
metrics ratio pool counters queued jobs memory gpu_memory =
    let seen = Metrics.snapshot counters in
    let completed = fetch_add seen.jobs_succeeded seen.jobs_failed in
    record {
      workers = worker_health pool;
      queued = queued;
      http_requests_total = seen.http_requests_total;
      http_requests_failed = seen.http_requests_failed;
      total_request_ms = seen.total_request_ms;
      average_request_ms =
          if ltb 0 seen.http_requests_total
          then some (ratio seen.total_request_ms seen.http_requests_total)
          else none;
      jobs_started = seen.jobs_started;
      jobs_succeeded = seen.jobs_succeeded;
      jobs_failed = seen.jobs_failed;
      jobs_timed_out = seen.jobs_timed_out;
      worker_restarts = seen.worker_restarts;
      total_inference_ms = seen.total_inference_ms;
      average_inference_ms =
          if ltb 0 completed then some (ratio seen.total_inference_ms completed) else none;
      model_load_ms = seen.model_load_ms;
      webhook_failures = seen.webhook_failures;
      cleanup_failures = seen.cleanup_failures;
      retained_jobs = length jobs;
      process_memory_rss_bytes = memory;
      gpu_memory = gpu_memory;
    }

unfoldable pub get_job : JobMap → Uuid → Result JobRecord
unfolding Map.get
get_job jobs id = elim (Map.get jobs id) [ none ↦ err ApiError.not_found | some job ↦ ok job ]
