-- ===== src/Config.antt =====
-- `Config` of src/config.rs.
pub mod Settings
pub mod File
pub mod Paths
pub mod Load
pub mod Samples
use unlimited_ocr_server.Prelude.{ℕ, ℤ, Bool, List, Option, Text}
use unlimited_ocr_server.Types.{FilePath, ModelVariant}

pub record Config : Type 0 where
  pub addr : Text
  pub model_path : FilePath
  pub decode_model_path : Option FilePath
  pub model_variant : ModelVariant
  pub model_image_size : ℕ
  pub data_dir : FilePath
  pub metadata_dir : FilePath
  pub images_dir : FilePath
  pub submissions_jsonl : FilePath
  pub results_jsonl : FilePath
  pub allow_local_paths : Bool
  pub local_path_roots : List FilePath
  pub cors_allowed_origins : List Text
  pub api_keys : List Text
  pub rate_limit_requests_per_minute : ℕ
  pub job_retention_limit : ℕ
  pub metadata_retention_limit : ℕ
  pub max_image_width : ℕ
  pub max_image_height : ℕ
  pub max_pdf_pages : ℕ
  pub pdf_render_dpi : ℕ
  pub workers : ℕ
  pub queue_size : ℕ
  pub body_limit_bytes : ℕ
  pub rust_log : Text
  pub max_new_tokens : ℕ
  pub temperature : ℕ
  pub job_timeout_seconds : ℕ
  pub request_timeout_seconds : ℕ
  pub webhook_timeout_seconds : ℕ
  pub webhook_connect_timeout_seconds : ℕ
  pub webhook_max_attempts : ℕ
  pub webhook_initial_backoff_ms : ℕ
  pub webhook_signing_secret : Option Text
  pub webhooks_dead_letter_jsonl : FilePath
  pub allow_private_webhook_urls : Bool
  pub execution_providers : List Text
  pub inference_device_id : Option ℤ
