-- ===== src/Config/Samples.antt =====
-- A configuration from the environment alone (src/config.rs): it asks for no workers and gets one.
use unlimited_ocr_server.Prelude.{
  ◌*◌, ◌≡◌, refl, true, false, Option, none, some, [], ◌∷◌, Text, codes, text_eq, if◌then◌else◌,
}
use unlimited_ocr_server.Config.{Config}
use unlimited_ocr_server.Inference.Ort.{fine, bail}
use unlimited_ocr_server.Config.Settings.{Environment}
use unlimited_ocr_server.Config.File.{Machine}
use unlimited_ocr_server.Config.Load.{load}
use unlimited_ocr_server.Types.{unlimited_ocr}

abbrev variable : Text → Option Text
variable key =
    if text_eq key (codes "MODEL_POOL_SIZE")
    then some (codes "0")
    else if text_eq key (codes "API_KEYS")
    then some (codes " a, ,b")
    else if text_eq key (codes "ALLOW_LOCAL_PATHS")
    then some (codes " On ")
    else if text_eq key (codes "MODEL_IMAGE_SIZE")
    then some (codes "1")
    else none

abbrev pub env : Environment
env = record {
  var = variable;
  var_path = λ key. none;
  var_paths = λ key.
      if text_eq key (codes "LOCAL_PATH_ROOTS") then some ((codes "scans" ∷ []) ∷ []) else none;
  parse_f32 = λ value. none;
}

abbrev pub machine : Machine
machine = record {
  exists = λ path. false;
  read_config = λ path. bail [];
  available_parallelism = none;
  is_socket_addr = λ addr. true;
}

abbrev pub loaded : Config
loaded = record {
  addr = codes "127.0.0.1:3000";
  model_path = codes "Unlimited-OCR" ∷ codes "onnx" ∷ codes "unlimited_ocr_prefill.onnx" ∷ [];
  decode_model_path = none;
  model_variant = unlimited_ocr;
  model_image_size = 1;
  data_dir = codes "data" ∷ [];
  metadata_dir = codes "data" ∷ codes "metadata" ∷ [];
  images_dir = codes "data" ∷ codes "images" ∷ [];
  submissions_jsonl = codes "data" ∷ codes "metadata" ∷ codes "submissions.jsonl" ∷ [];
  results_jsonl = codes "data" ∷ codes "metadata" ∷ codes "results.jsonl" ∷ [];
  allow_local_paths = true;
  local_path_roots = (codes "scans" ∷ []) ∷ [];
  cors_allowed_origins = [];
  api_keys = codes "a" ∷ codes "b" ∷ [];
  rate_limit_requests_per_minute = 0;
  job_retention_limit = 1000;
  metadata_retention_limit = 1_0000;
  max_image_width = 8192;
  max_image_height = 8192;
  max_pdf_pages = 32;
  pdf_render_dpi = 200;
  workers = 1;
  queue_size = 128;
  body_limit_bytes = 100 * 1024 * 1024;
  rust_log = codes "info,ort=warn";
  max_new_tokens = 256;
  temperature = 0;
  job_timeout_seconds = 300;
  request_timeout_seconds = 60;
  webhook_timeout_seconds = 10;
  webhook_connect_timeout_seconds = 5;
  webhook_max_attempts = 1;
  webhook_initial_backoff_ms = 500;
  webhook_signing_secret = none;
  webhooks_dead_letter_jsonl =
      codes "data" ∷ codes "metadata" ∷ codes "webhooks_dead_letter.jsonl" ∷ [];
  allow_private_webhook_urls = false;
  execution_providers = codes "auto" ∷ [];
  inference_device_id = none;
}

pub loads_all : load env machine none ≡ fine loaded
unfolding load
loads_all = refl
