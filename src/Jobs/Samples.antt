-- ===== src/Jobs/Samples.antt =====
-- Concrete channels, clients and jobs for the tests of Jobs.
use unlimited_ocr_server.Prelude.{
  ℕ, ◌≡◌, ◌≢◌, refl, Bool, true, false, List, [], ◌∷◌, ◌++◌, none, some, Text, codes, length, ◌==◌,
  if◌then◌else◌, arith,
}
use unlimited_ocr_server.Types.{
  custom, Uuid, JobRecord, JobStatus, queued, running, succeeded, upload, InferenceMetadata,
  unlimited_ocr,
}
use unlimited_ocr_server.Config.{Config}
use unlimited_ocr_server.State.Metrics.{zero_metrics}
use unlimited_ocr_server.Jobs.Map.{JobMap, IsKeyed}
use unlimited_ocr_server.Jobs.Store.Files.{written}
use unlimited_ocr_server.Jobs.Webhook.{Http, WebhookClient, Response, responded, bytes}
use unlimited_ocr_server.Jobs.Server.{JobRequest, SendOutcome, sent, full, Channel, Server}
use unlimited_ocr_server.Jobs.Worker.{Finishing, removed}
use unlimited_ocr_server.Jobs.Worker.Run.{Run, BlockingInferenceResult}

-- A channel for one request.
abbrev send_one : JobRequest → List JobRequest → List JobRequest × SendOutcome
send_one r [] = (r ∷ [], sent)
send_one r (x ∷ q) = (x ∷ q, full)

abbrev holds_one : List JobRequest → Bool
holds_one [] = false
holds_one (_ ∷ _) = true

pub send_one-sent :
    (r : JobRequest) (q : List JobRequest)
    → (send_one r q).1 ≡ sent
    → (send_one r q).0 ≡ q ++ r ∷ []
send_one-sent r [] h = refl
send_one-sent r (x ∷ q) h = cc

pub send_one-refused :
    (r : JobRequest) (q : List JobRequest) → (send_one r q).1 ≢ sent → (send_one r q).0 ≡ q
send_one-refused r [] h = absurd (h refl)
send_one-refused r (x ∷ q) h = refl

abbrev pub one_slot : Channel
one_slot = record {
  Queue = List JobRequest;
  is_full = holds_one;
  len = length;
  try_send = send_one;
  contents = λ q. q;
  try_send-sent = send_one-sent;
  try_send-refused = send_one-refused;
}

-- A server that answers the third attempt only.
abbrev third_time : ℕ → Response
third_time attempt = if attempt == 3 then responded true 200 else responded false 503

abbrev pub flaky : Http
flaky = record {
  to_vec = λ event. bytes (codes "{}");
  hmac_sha256_hex = λ secret body. codes "00ff";
  post = λ request. third_time request.delivery_attempt;
}

abbrev pub patient : WebhookClient
patient = record { max_attempts = 3; initial_backoff = 500; signing_secret = some (codes "key") }

abbrev pub hasty : WebhookClient
hasty = record { max_attempts = 2; initial_backoff = 500; signing_secret = none }

abbrev pub images : List Text
images = codes "data" ∷ codes "images" ∷ []

abbrev pub config : Config
config = record {
  images_dir = images;
  allow_local_paths = false;
  local_path_roots = [];
  api_keys = codes "secret" ∷ [];
  rate_limit_requests_per_minute = 60;
  job_retention_limit = 2;
  metadata_retention_limit = 0;
  max_image_width = 4096;
  max_image_height = 4096;
  max_pdf_pages = 10;
  workers = 1;
  queue_size = 1;
  max_new_tokens = 16;
  job_timeout_seconds = 30;
  webhook_max_attempts = 3;
  webhook_initial_backoff_ms = 500;
  allow_private_webhook_urls = false;
  addr = codes "127.0.0.1:3000";
  model_path = codes "model" ∷ [];
  decode_model_path = none;
  model_variant = custom;
  model_image_size = 1024;
  data_dir = codes "data" ∷ [];
  metadata_dir = codes "data" ∷ codes "metadata" ∷ [];
  submissions_jsonl = codes "data" ∷ codes "metadata" ∷ codes "submissions.jsonl" ∷ [];
  results_jsonl = codes "data" ∷ codes "metadata" ∷ codes "results.jsonl" ∷ [];
  cors_allowed_origins = [];
  pdf_render_dpi = 200;
  body_limit_bytes = 1000;
  rust_log = [];
  temperature = 0;
  request_timeout_seconds = 60;
  webhook_timeout_seconds = 10;
  webhook_connect_timeout_seconds = 5;
  webhook_signing_secret = none;
  webhooks_dead_letter_jsonl = [];
  execution_providers = codes "auto" ∷ [];
  inference_device_id = none;
}

abbrev pub image_of : Uuid → List Text
image_of id = images ++ (id ∷ []) ∷ []

abbrev pub job : Uuid → JobStatus → ℕ → JobRecord
job id status time = record {
  id = id;
  status = status;
  created_at = 1;
  updated_at = time;
  image_path = image_of id;
  filename = none;
  content_type = none;
  image_sha256 = codes "ab";
  image_bytes = 10;
  input_kind = upload;
  source_path = none;
  document_filename = none;
  document_page = none;
  document_pages = none;
  text_input = none;
  webhook_url = some (codes "https://example.com/hook");
  result = none;
  error = none;
}

-- Three jobs, the second one updated last.
abbrev pub three : JobMap
three = (1, job 1 succeeded 5) ∷ (2, job 2 running 9) ∷ (3, job 3 queued 7) ∷ []

pub three-IsKeyed : IsKeyed three
three-IsKeyed =
    (refl, (ground arith, (ground arith, tt)), (refl, (ground arith, tt), (refl, tt, tt)))

abbrev pub server : Server one_slot
server = record {
  jobs = three;
  queue = [];
  workers = record { expected = 2; ready = 1; failed = 0 };
  metrics = record zero_metrics { jobs_started = 1 };
  files = record { submissions = none; results = none };
  dead_letters = [];
  images = image_of 1 ∷ image_of 2 ∷ image_of 3 ∷ [];
}

abbrev pub metadata : InferenceMetadata
metadata = record {
  backend = codes "onnxruntime";
  model_path = codes "models" ∷ [];
  model_variant = unlimited_ocr;
  input_name = codes "input_ids";
  input_dtype = codes "int64";
  original_width = 10;
  original_height = 10;
  processed_width = 1024;
  processed_height = 1024;
  elapsed_ms = 12;
  task_token = codes "document";
  prompt_text = codes "OCR";
  generated_text = codes "hi";
  generated_tokens = 1;
  result = record { text = codes "hi"; detections = []; tables = [] };
  generations = [];
  outputs = [];
}

abbrev pub finishing : Finishing one_slot
finishing = record {
  now = 20;
  append = written;
  event_id = 77;
  event_time = 21;
  failed_at = 22;
  dead_letter_error = none;
  removal = removed;
  at_lock = λ s. s;
  at_append = λ s. s;
  at_webhook = λ s. s;
  at_cleanup = λ s. s;
  at_retain = λ s. s;
}

abbrev pub run_of : Bool → BlockingInferenceResult → Run one_slot
run_of within_timeout result = record {
  started_at = 10;
  within_timeout = within_timeout;
  result = result;
  elapsed_ms = 5;
  finishing = finishing;
  meanwhile = λ s. s;
}
