-- ===== src/Config/Load.antt =====
-- `Config::load` of src/config.rs, in the parts in which the settings are read.
pub mod Bounds
mod Tests
use unlimited_ocr_server.Prelude.{
  ℕ, zero, suc, ◌+◌, ◌-◌, ◌*◌, ◌/◌, ◌%◌, ◌^◌, ◌≤◌, ◌<◌, min, max, ◌≡◌, refl, sym, ap, ◌∙◌, ◌≢◌, ◌↔◌,
  ◌⊎◌, inl, inr, Bool, true, false, not, ◌&&◌, ◌||◌, Option, none, some, List, [], ◌∷◌, ◌++◌, map,
  arith, Text, codes, text_eq, text_eq_iff, is_whitespace, trim_start, trim_end, trim, strip_prefix,
  is_empty, to_ascii_lowercase, lowercase, eq_ignore_ascii_case, decimal, ℤ, pos, negsuc, int_eq,
  neg, length, get_elem?, take, drop, replicate, any, all, retain, All, length-append, length-take,
  length-drop, length-map, length-retain, All-append, All-map, take-append-drop, All-append_right,
  All-reverse, All-take, length-reverse, ltb, leb, ◌==◌, if◌then◌else◌, ltb→lt, lt→ltb, leb→le,
  ==_iff, ==_refl, tests, Bool-cases, Option-cases, is_some, unwrap_or, and_then,
}
use unlimited_ocr_server.Prelude.Search.{find}
use unlimited_ocr_server.Types.{FilePath, ModelVariant, unlimited_ocr, custom}
use unlimited_ocr_server.Config.{Config}
use unlimited_ocr_server.Inference.Ort.{Anyhow, fine, bail, ◌>>=◌, ◌>>◌, ok_or, bail_if}
use unlimited_ocr_server.Config.Settings.{
  Environment, or_file, path_setting, string_setting, usize_setting, u64_setting, u32_setting,
  non_negative_f32_setting, optional_non_negative_i32_setting, bool_setting, path_list_setting,
  string_list_setting, secret_setting, execution_providers_setting,
}
use unlimited_ocr_server.Config.File.{FileConfig, no_config, Machine, load_file}
use unlimited_ocr_server.Config.Paths.{
  parse_model_variant, default_model_path, decode_model_path_setting,
  default_worker_count_for_execution_providers,
}

-- The settings of the model, the limits and the queue, in the order in which they are read
pub record Limits : Type 0 where
  pub model_image_size : ℕ
  pub rate_limit : ℕ
  pub job_retention_limit : ℕ
  pub metadata_retention_limit : ℕ
  pub max_image_width : ℕ
  pub max_image_height : ℕ
  pub max_pdf_pages : ℕ
  pub pdf_render_dpi : ℕ
  pub workers : ℕ
  pub queue_size : ℕ
  pub body_limit_bytes : ℕ
  pub request_timeout_seconds : ℕ

-- The settings of generation and webhooks, in the order in which they are read
pub record Generation : Type 0 where
  pub max_new_tokens : ℕ
  pub temperature : ℕ
  pub job_timeout_seconds : ℕ
  pub webhook_timeout_seconds : ℕ
  pub webhook_connect_timeout_seconds : ℕ
  pub webhook_max_attempts : ℕ
  pub webhook_initial_backoff_ms : ℕ
  pub allow_private_webhook_urls : Bool
  pub inference_device_id : Option ℤ

module _ (env : Environment) (machine : Machine) where
  unfoldable pub limits_of : FileConfig → (execution_providers : List Text) → Anyhow Limits
  unfolding usize_setting u64_setting u32_setting default_worker_count_for_execution_providers
  limits_of file execution_providers = do
    model_image_size ← u32_setting env (codes "MODEL_IMAGE_SIZE") file.image_size 1024
    rate_limit ←
        u64_setting env (codes "RATE_LIMIT_REQUESTS_PER_MINUTE") file.rate_limit_requests_per_minute
          0
    job_retention_limit ←
        usize_setting env (codes "JOB_RETENTION_LIMIT") file.job_retention_limit 1000
    metadata_retention_limit ←
        usize_setting env (codes "METADATA_RETENTION_LIMIT") file.metadata_retention_limit 1_0000
    max_image_width ← u32_setting env (codes "MAX_IMAGE_WIDTH") file.max_image_width 8192
    max_image_height ← u32_setting env (codes "MAX_IMAGE_HEIGHT") file.max_image_height 8192
    max_pdf_pages ← usize_setting env (codes "MAX_PDF_PAGES") file.max_pdf_pages 32
    pdf_render_dpi ← u32_setting env (codes "PDF_RENDER_DPI") file.pdf_render_dpi 200
    workers ←
        usize_setting env (codes "MODEL_POOL_SIZE") file.model_pool_size
          (default_worker_count_for_execution_providers env machine execution_providers)
    queue_size ← usize_setting env (codes "QUEUE_SIZE") file.queue_size 128
    body_limit_bytes ←
        usize_setting env (codes "BODY_LIMIT_BYTES") file.body_limit_bytes (100 * 1024 * 1024)
    request_timeout_seconds ←
        u64_setting env (codes "REQUEST_TIMEOUT_SECONDS") file.request_timeout_seconds 60
    fine (record {
      model_image_size = max model_image_size 1;
      rate_limit = rate_limit;
      job_retention_limit = job_retention_limit;
      metadata_retention_limit = metadata_retention_limit;
      max_image_width = max_image_width;
      max_image_height = max_image_height;
      max_pdf_pages = max max_pdf_pages 1;
      pdf_render_dpi = max pdf_render_dpi 1;
      workers = max workers 1;
      queue_size = queue_size;
      body_limit_bytes = body_limit_bytes;
      request_timeout_seconds = request_timeout_seconds;
    })

  unfoldable pub generation_of : FileConfig → Anyhow Generation
  unfolding usize_setting u64_setting non_negative_f32_setting optional_non_negative_i32_setting
      bool_setting
  generation_of file = do
    max_new_tokens ← usize_setting env (codes "MAX_NEW_TOKENS") file.max_new_tokens 256
    temperature ← non_negative_f32_setting env (codes "TEMPERATURE") file.temperature 0
    job_timeout_seconds ← u64_setting env (codes "JOB_TIMEOUT_SECONDS") file.job_timeout_seconds 300
    webhook_timeout_seconds ←
        u64_setting env (codes "WEBHOOK_TIMEOUT_SECONDS") file.webhook_timeout_seconds 10
    webhook_connect_timeout_seconds ←
        u64_setting env (codes "WEBHOOK_CONNECT_TIMEOUT_SECONDS")
          file.webhook_connect_timeout_seconds 5
    webhook_max_attempts ←
        usize_setting env (codes "WEBHOOK_MAX_ATTEMPTS") file.webhook_max_attempts 1
    webhook_initial_backoff_ms ←
        u64_setting env (codes "WEBHOOK_INITIAL_BACKOFF_MS") file.webhook_initial_backoff_ms 500
    allow_private_webhook_urls ←
        bool_setting env (codes "ALLOW_PRIVATE_WEBHOOK_URLS") file.allow_private_webhook_urls false
    inference_device_id ←
        optional_non_negative_i32_setting env (codes "INFERENCE_DEVICE_ID") file.device_id
    fine (record {
      max_new_tokens = max max_new_tokens 1;
      temperature = temperature;
      job_timeout_seconds = job_timeout_seconds;
      webhook_timeout_seconds = webhook_timeout_seconds;
      webhook_connect_timeout_seconds = webhook_connect_timeout_seconds;
      webhook_max_attempts = max webhook_max_attempts 1;
      webhook_initial_backoff_ms = webhook_initial_backoff_ms;
      allow_private_webhook_urls = allow_private_webhook_urls;
      inference_device_id = inference_device_id;
    })

  -- The settings in the order in which they are read.
  unfoldable pub config_of : FileConfig → Anyhow Config
  unfolding path_setting string_setting usize_setting u64_setting u32_setting
      non_negative_f32_setting optional_non_negative_i32_setting bool_setting path_list_setting
      string_list_setting secret_setting execution_providers_setting parse_model_variant
      decode_model_path_setting default_worker_count_for_execution_providers limits_of generation_of
  config_of file = do
    let execution_providers = execution_providers_setting env file.execution_providers
    let data_dir = path_setting env (codes "DATA_DIR") file.data_dir (codes "data" ∷ [])
    let metadata_dir = data_dir ++ codes "metadata" ∷ []
    let local_path_roots = path_list_setting env (codes "LOCAL_PATH_ROOTS") file.local_path_roots
    let path = or_file (env.var_path (codes "MODEL_PATH")) file.path
    let model_path = unwrap_or path (default_model_path env machine)
    let addr = string_setting env (codes "BIND_ADDR") file.bind_addr (codes "127.0.0.1:3000")
    allow_local_paths ← bool_setting env (codes "ALLOW_LOCAL_PATHS") file.allow_local_paths false
    bail_if (allow_local_paths && is_empty local_path_roots)
        (codes "local path inference requires at least one configured local_path_roots entry")
    model_variant ← parse_model_variant env machine file.variant (is_some path)
    bail_if (not (machine.is_socket_addr addr))
        (codes "BIND_ADDR must be a socket address, for example 127.0.0.1:3000")
    limits ← limits_of file execution_providers
    generation ← generation_of file
    fine (record {
      addr = addr;
      model_path = model_path;
      decode_model_path = decode_model_path_setting env machine model_path file.decode_path;
      model_variant = model_variant;
      model_image_size = limits.model_image_size;
      data_dir = data_dir;
      metadata_dir = metadata_dir;
      images_dir = data_dir ++ codes "images" ∷ [];
      submissions_jsonl = metadata_dir ++ codes "submissions.jsonl" ∷ [];
      results_jsonl = metadata_dir ++ codes "results.jsonl" ∷ [];
      allow_local_paths = allow_local_paths;
      local_path_roots = local_path_roots;
      cors_allowed_origins =
          string_list_setting env (codes "CORS_ALLOWED_ORIGINS") file.cors_allowed_origins;
      api_keys = string_list_setting env (codes "API_KEYS") file.api_keys;
      rate_limit_requests_per_minute = limits.rate_limit;
      job_retention_limit = limits.job_retention_limit;
      metadata_retention_limit = limits.metadata_retention_limit;
      max_image_width = limits.max_image_width;
      max_image_height = limits.max_image_height;
      max_pdf_pages = limits.max_pdf_pages;
      pdf_render_dpi = limits.pdf_render_dpi;
      workers = limits.workers;
      queue_size = limits.queue_size;
      body_limit_bytes = limits.body_limit_bytes;
      rust_log = string_setting env (codes "RUST_LOG") file.rust_log (codes "info,ort=warn");
      max_new_tokens = generation.max_new_tokens;
      temperature = generation.temperature;
      job_timeout_seconds = generation.job_timeout_seconds;
      request_timeout_seconds = limits.request_timeout_seconds;
      webhook_timeout_seconds = generation.webhook_timeout_seconds;
      webhook_connect_timeout_seconds = generation.webhook_connect_timeout_seconds;
      webhook_max_attempts = generation.webhook_max_attempts;
      webhook_initial_backoff_ms = generation.webhook_initial_backoff_ms;
      webhook_signing_secret =
          secret_setting env (codes "WEBHOOK_SIGNING_SECRET") file.webhook_signing_secret;
      webhooks_dead_letter_jsonl = metadata_dir ++ codes "webhooks_dead_letter.jsonl" ∷ [];
      allow_private_webhook_urls = generation.allow_private_webhook_urls;
      execution_providers = execution_providers;
      inference_device_id = generation.inference_device_id;
    })

  unfoldable pub load : Option FilePath → Anyhow Config
  unfolding load_file config_of
  load config_path = load_file env machine config_path >>= config_of
