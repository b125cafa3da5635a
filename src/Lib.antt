-- ===== src/Lib.antt =====
-- A model of unlimited-ocr-server, an HTTP service that queues images and PDF pages for OCR, runs a
-- model on them in worker tasks, keeps the jobs in memory and in JSONL files, and reports finished
-- jobs to webhooks.
--
-- The parts, and how they interact. A request passes the middleware (API key, rate limit), a handler
-- turns it into job records (Api.Submit), and each record is put into the job map, logged and sent to
-- the queue (Jobs.Queue). A worker takes the request, runs the model and finishes the job (Jobs.Worker):
-- it stores the final record, appends it to the results, calls the webhook (Jobs.Webhook), removes the
-- image and prunes the map (Jobs.Store). At startup the map is read back from the files and jobs that
-- never ended are failed (Jobs.Store.Load). Running the model (Inference) means: the image becomes a
-- square of floats, the task becomes token ids with a place for the image, the ONNX graphs give one
-- token after the other, with or without a cache of keys and values, and the text that the tokens spell
-- is parsed into detections and tables. Config.Load fills the configuration that all parts read;
-- Api.Views gives the data of the job pages and of the health and metrics endpoints.
--
-- Which file models which part (paths from the repository's root):
--   Prelude and its children   lists, texts, search in texts, numbers, bits, sorting and other helpers;
--                              UTF-8 and number parsing follow Rust's standard library
--   Types, Types/Task          src/types.rs and src/types: records of jobs, results and responses
--   Config                     src/config.rs: the record Config
--   Config/Settings            src/config/settings.rs: one setting from the environment or the file
--   Config/File                src/config/file.rs: the configuration file
--   Config/Paths               src/config/model_variant.rs, and the paths and the number of workers of
--                              src/config.rs
--   Config/Load                Config::load of src/config.rs
--   Util                       src/util.rs: content types and file extensions
--   Pdf                        src/pdf.rs: page count, rendering and collection of pages
--   Inference/Ort              what src/inference uses of the ONNX runtime and of anyhow
--   Inference/Feeds            src/inference/feeds.rs: inspection of the graphs (Metadata), the inputs of
--                              the prefill graph (Inputs), the cache of the decode graph (Cache)
--   Inference/Tensor           src/inference/tensor.rs: choice of the next token from the logits
--   Inference/Prompt           src/inference/prompt.rs: prompt tokens and the generated text
--   Inference/Image            src/inference/image.rs: padding, resizing and normalizing
--   Inference/Generate         src/inference.rs: the two generation loops
--   Inference/Worker           src/inference.rs: building of a worker and infer, up to logging;
--                              tokenizer_path_for_model of src/inference/model.rs
--   Inference/Output           src/inference.rs: generation_metadata and output_metadata, with
--                              tensor_metadata_f32 of src/inference/tensor.rs
--   Inference/Parse            src/inference/parse.rs: detections (Detections), tables (Tables, Tags),
--                              text of cells (Entities)
--   State/Workers, Metrics     WorkerPoolState and AppMetrics of src/state.rs
--   State/RateLimiter          RateLimiter of src/state.rs
--   Jobs/Map                   the HashMap of jobs, as an association list
--   Jobs/Store                 src/jobs/store.rs: append_jsonl, load_jobs, compact_metadata, retention
--   Jobs/Webhook               src/jobs/webhook.rs: deliver, backoff_delay, send_webhook
--   Jobs/Server, Jobs/Queue    src/jobs/queue.rs: enqueue_record and its rollback, over a channel
--   Jobs/Worker                src/jobs/worker.rs: finish_job and the cleanup; Jobs/Worker/Run has the
--                              handling of a request and the two loops
--   Api/Http                   ApiError and responses of src/api.rs
--   Api/Security               src/api/security.rs, track_request_metrics of src/api.rs
--   Api/Views                  src/api.rs: render_jobs_index; in child modules the views of a job (Job)
--                              and health, readiness, metrics and get_job (Health); the data of
--                              src/templates.rs
--   Api/Submit                 src/api/submit.rs: the queueing of one record or of all pages of a PDF,
--                              and in child modules the multipart body (Multipart), the records of
--                              rendered pages (Pages), uploads (Uploads), local files (Local) and the
--                              handlers (Handlers)
--   Api/Submit/Validation      src/api/submit/validation.rs; Api/Submit/IpAddr has std::net's addresses
-- The other modules hold the theorems on the part whose folder they stand in; modules named Tests run
-- the definitions and apply the theorems at concrete inputs, with data from the modules named
-- Samples.
--
-- State is passed explicitly: a Server holds the map, the queue, the worker counts, the metrics, the
-- metadata files, the dead letters and the set of files on disk. A record Run, Finishing, Startup,
-- Surroundings or Site says what the clock, the file system, the model and other tasks do at each
-- point where the code asks them. What other tasks do to the server meanwhile is a function for each
-- wait of enqueue_record (Others), for the inference (meanwhile in Run), and for each wait of finish_job:
-- for the lock, the append, the webhook, the removal of the image, and the lock again (at_lock to
-- at_retain in Finishing). The requests that a worker receives are a list that is given from outside.
--
-- Numbers are natural numbers, or integers where the code has signed ones. Counters of the state wrap
-- at 2^64 and conversions to usize saturate, as on a 64-bit target; sizes of tensors are multiplied with
-- the code's checks; times are nanoseconds; a float is its bits. Loops are structural: over lists of
-- lines, records, requests, fields, logits or dimensions, over the attempts or tokens that are left, or
-- over the rounds that the code counts. The loops of the parser, which the code drives by positions in a
-- text, run on rounds, one more than the text has characters, which is enough since every round consumes
-- a character. Prelude/Chars.digits takes a number of rounds too, and n + 1 are enough for the digits of
-- n.
--
-- A text is a list of characters. The parser cuts a text only at ASCII characters it found, so positions
-- count characters where the code counts bytes.
--
-- Third-party code is a parameter: the channel of async_channel with the laws it documents, the HTTP
-- client, serde and the MAC (Http), the URL parser, the image decoder (Decoder), the hash, the programs
-- pdfinfo and pdftoppm (Poppler), the ONNX runtime's tensors and sessions (Ort, Session, ModelFiles), the
-- tokenizer (Tokenizer), decoding and resizing of images (Images), arithmetic of floats (Floats, Statistics), and
-- the TOML parser, the environment and the machine that a configuration is read from (Environment,
-- Machine). That a prefill and a decode graph are exports of one model is the hypothesis Exported in
-- Inference/Generate/Refine, which says what the one gives for the feeds made from a sequence, and the other for a token, its
-- position and the cache before it. A
-- line of a JSONL file is the record that serde reads from it, blank, or malformed. A file is a list of
-- whole lines, each with its line break: a last line without one, to which append_jsonl would join its
-- record, is not modelled. The job map is an association list. Its order stands for the order
-- in which the HashMap is iterated: any order at a startup (place in Startup), and the order of first
-- insertion later. Two runs may iterate the same jobs in different orders, so no theorem compares the
-- jobs that two runs keep; the theorems speak of a map by lookup, length and time of update.
-- Sets of input names are lists.
--
-- Not modelled: the set-up of ONNX sessions and execution providers in src/inference/model.rs, the HTML
-- of the templates, the JSON text on the page of a job, the OpenAPI document, readings of the system,
-- the headers that are the same for every response, creation of directories, start-up in src/main.rs,
-- and log messages.
pub mod Prelude
pub mod Types
pub mod Config
pub mod Util
pub mod Inference
pub mod Pdf
pub mod State
pub mod Jobs
pub mod Api
