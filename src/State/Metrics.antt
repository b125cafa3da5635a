-- ===== src/State/Metrics.antt =====
-- `AppMetrics` of src/state.rs.
use unlimited_ocr_server.Prelude.{ℕ, Bool, Option, none, some, ltb, if◌then◌else◌}
use unlimited_ocr_server.State.Word.{fetch_add, saturating_usize}

pub record AppMetrics : Type 0 where
  pub jobs_started : ℕ
  pub jobs_succeeded : ℕ
  pub jobs_failed : ℕ
  pub jobs_timed_out : ℕ
  pub worker_restarts : ℕ
  pub total_inference_ms : ℕ
  pub model_load_ms : ℕ
  pub http_requests_total : ℕ
  pub http_requests_failed : ℕ
  pub total_request_ms : ℕ
  pub webhook_failures : ℕ
  pub cleanup_failures : ℕ

pub record MetricsSnapshot : Type 0 where
  pub jobs_started : ℕ
  pub jobs_succeeded : ℕ
  pub jobs_failed : ℕ
  pub jobs_timed_out : ℕ
  pub worker_restarts : ℕ
  pub total_inference_ms : ℕ
  pub model_load_ms : Option ℕ
  pub http_requests_total : ℕ
  pub http_requests_failed : ℕ
  pub total_request_ms : ℕ
  pub webhook_failures : ℕ
  pub cleanup_failures : ℕ

abbrev pub zero_metrics : AppMetrics
zero_metrics = record {
  jobs_started = 0;
  jobs_succeeded = 0;
  jobs_failed = 0;
  jobs_timed_out = 0;
  worker_restarts = 0;
  total_inference_ms = 0;
  model_load_ms = 0;
  http_requests_total = 0;
  http_requests_failed = 0;
  total_request_ms = 0;
  webhook_failures = 0;
  cleanup_failures = 0;
}

unfoldable pub record_http_request : ℕ → Bool → AppMetrics → AppMetrics
record_http_request elapsed_ms failed m = record m {
  http_requests_total = fetch_add m.http_requests_total 1;
  http_requests_failed =
      if failed then fetch_add m.http_requests_failed 1 else m.http_requests_failed;
  total_request_ms = fetch_add m.total_request_ms (saturating_usize elapsed_ms);
}

unfoldable pub record_job_started : AppMetrics → AppMetrics
record_job_started m = record m { jobs_started = fetch_add m.jobs_started 1 }

unfoldable pub record_job_succeeded : ℕ → AppMetrics → AppMetrics
record_job_succeeded elapsed_ms m = record m {
  jobs_succeeded = fetch_add m.jobs_succeeded 1;
  total_inference_ms = fetch_add m.total_inference_ms (saturating_usize elapsed_ms);
}

unfoldable pub record_job_failed : ℕ → AppMetrics → AppMetrics
record_job_failed elapsed_ms m = record m {
  jobs_failed = fetch_add m.jobs_failed 1;
  total_inference_ms = fetch_add m.total_inference_ms (saturating_usize elapsed_ms);
}

unfoldable pub record_job_timed_out : ℕ → AppMetrics → AppMetrics
unfolding record_job_failed
record_job_timed_out elapsed_ms m =
    record_job_failed elapsed_ms (record m { jobs_timed_out = fetch_add m.jobs_timed_out 1 })

unfoldable pub record_worker_restart : AppMetrics → AppMetrics
record_worker_restart m = record m { worker_restarts = fetch_add m.worker_restarts 1 }

unfoldable pub record_model_load : ℕ → AppMetrics → AppMetrics
record_model_load elapsed_ms m = record m { model_load_ms = saturating_usize elapsed_ms }

unfoldable pub record_webhook_failure : AppMetrics → AppMetrics
record_webhook_failure m = record m { webhook_failures = fetch_add m.webhook_failures 1 }

unfoldable pub record_cleanup_failure : AppMetrics → AppMetrics
record_cleanup_failure m = record m { cleanup_failures = fetch_add m.cleanup_failures 1 }

unfoldable pub snapshot : AppMetrics → MetricsSnapshot
snapshot m = record {
  jobs_started = m.jobs_started;
  jobs_succeeded = m.jobs_succeeded;
  jobs_failed = m.jobs_failed;
  jobs_timed_out = m.jobs_timed_out;
  worker_restarts = m.worker_restarts;
  total_inference_ms = m.total_inference_ms;
  model_load_ms = if ltb 0 m.model_load_ms then some m.model_load_ms else none;
  http_requests_total = m.http_requests_total;
  http_requests_failed = m.http_requests_failed;
  total_request_ms = m.total_request_ms;
  webhook_failures = m.webhook_failures;
  cleanup_failures = m.cleanup_failures;
}
