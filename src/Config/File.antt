-- ===== src/Config/File.antt =====
-- The configuration file: src/config/file.rs. Its sections are one record.
use unlimited_ocr_server.Prelude.{
  ℕ, Bool, Option, none, List, [], ◌∷◌, Text, codes, ℤ, if◌then◌else◌, is_some, unwrap_or,
}
use unlimited_ocr_server.Types.{FilePath}
use unlimited_ocr_server.Inference.Ort.{Anyhow, fine, bail}
use unlimited_ocr_server.Config.Settings.{Environment, or_file}

pub record FileConfig : Type 0 where
  pub bind_addr : Option Text
  pub data_dir : Option FilePath
  pub allow_local_paths : Option Bool
  pub local_path_roots : Option (List FilePath)
  pub cors_allowed_origins : Option (List Text)
  pub api_keys : Option (List Text)
  pub rate_limit_requests_per_minute : Option ℕ
  pub body_limit_bytes : Option ℕ
  pub request_timeout_seconds : Option ℕ
  pub path : Option FilePath
  pub decode_path : Option FilePath
  pub variant : Option Text
  pub image_size : Option ℕ
  pub model_pool_size : Option ℕ
  pub queue_size : Option ℕ
  pub max_new_tokens : Option ℕ
  pub temperature : Option ℕ
  pub job_timeout_seconds : Option ℕ
  pub webhook_timeout_seconds : Option ℕ
  pub webhook_connect_timeout_seconds : Option ℕ
  pub webhook_max_attempts : Option ℕ
  pub webhook_initial_backoff_ms : Option ℕ
  pub webhook_signing_secret : Option Text
  pub allow_private_webhook_urls : Option Bool
  pub execution_providers : Option (List Text)
  pub device_id : Option ℤ
  pub rust_log : Option Text
  pub job_retention_limit : Option ℕ
  pub metadata_retention_limit : Option ℕ
  pub max_image_width : Option ℕ
  pub max_image_height : Option ℕ
  pub max_pdf_pages : Option ℕ
  pub pdf_render_dpi : Option ℕ

-- `FileConfig::default`
abbrev pub no_config : FileConfig
no_config = record {
  bind_addr = none;
  data_dir = none;
  allow_local_paths = none;
  local_path_roots = none;
  cors_allowed_origins = none;
  api_keys = none;
  rate_limit_requests_per_minute = none;
  body_limit_bytes = none;
  request_timeout_seconds = none;
  path = none;
  decode_path = none;
  variant = none;
  image_size = none;
  model_pool_size = none;
  queue_size = none;
  max_new_tokens = none;
  temperature = none;
  job_timeout_seconds = none;
  webhook_timeout_seconds = none;
  webhook_connect_timeout_seconds = none;
  webhook_max_attempts = none;
  webhook_initial_backoff_ms = none;
  webhook_signing_secret = none;
  allow_private_webhook_urls = none;
  execution_providers = none;
  device_id = none;
  rust_log = none;
  job_retention_limit = none;
  metadata_retention_limit = none;
  max_image_width = none;
  max_image_height = none;
  max_pdf_pages = none;
  pdf_render_dpi = none;
}

-- The file system, the number of processors, the parser of socket addresses, and `serde` with `toml`.
pub record Machine : Type 0 where
  pub exists : FilePath → Bool
  pub read_config : FilePath → Anyhow FileConfig
  pub available_parallelism : Option ℕ
  pub is_socket_addr : Text → Bool

module _ (env : Environment) (machine : Machine) where
  -- The command line's file, else that of CONFIG_PATH, else `config.toml`, which may be missing.
  unfoldable pub load_file : Option FilePath → Anyhow FileConfig
  load_file config_path =
      let named = or_file config_path (env.var_path (codes "CONFIG_PATH")) in
      let path = unwrap_or named (codes "config.toml" ∷ []) in
      if machine.exists path
      then machine.read_config path
      else if is_some named
      then bail (codes "config file does not exist")
      else fine no_config
