-- ===== src/Types.antt =====
-- The records of src/types: jobs, inference results and responses. A `Uuid` is its 128-bit number,
-- an `OffsetDateTime` a count of nanoseconds, a path the list of its components, an `f32` its bit
-- pattern; a stored error message is a constructor for each place that writes one.
pub mod Task
use unlimited_ocr_server.Prelude.{ℕ, List, Option, Text, ℤ}

abbrev pub Uuid : Type 0
Uuid = ℕ

abbrev pub Time : Type 0
Time = ℕ

abbrev pub FilePath : Type 0
FilePath = List Text

pub data JobStatus : Type 0 where
  queued running succeeded failed : JobStatus

-- The values that the code gives to `input_kind`; `other` is any string of a file read at startup.
pub data InputKind : Type 0 where
  upload upload_pdf_page local_pdf_page local_path : InputKind
  other : Text → InputKind

-- The texts that the code gives to `JobRecord::error`.
pub data ErrorMessage : Type 0 where
  server_restarted : ErrorMessage
  queue_became_full : ErrorMessage
  queue_became_closed : ErrorMessage
  job_timed_out : (seconds : ℕ) → ErrorMessage
  worker_task_failed : (err : Text) → ErrorMessage
  inference_failed : (err : Text) → ErrorMessage

pub record BoundingBox : Type 0 where
  pub x_min : ℤ
  pub y_min : ℤ
  pub x_max : ℤ
  pub y_max : ℤ

pub record OcrDetection : Type 0 where
  pub label : Text
  pub bbox : BoundingBox
  pub text : Text

pub record OcrTableCell : Type 0 where
  pub text : Text
  pub row_span : ℕ
  pub col_span : ℕ

pub record OcrTable : Type 0 where
  pub bbox : BoundingBox
  pub html : Text
  pub rows : List (List OcrTableCell)

pub record OcrResult : Type 0 where
  pub text : Text
  pub detections : List OcrDetection
  pub tables : List OcrTable

pub data ModelVariant : Type 0 where
  unlimited_ocr custom : ModelVariant

pub record GenerationMetadata : Type 0 where
  pub task_token : Text
  pub prompt_text : Text
  pub generated_text : Text
  pub generated_tokens : ℕ
  pub result : OcrResult

pub record TensorMetadata : Type 0 where
  pub name : Text
  pub shape : List ℤ
  pub elements : ℕ
  pub mean : Option ℕ
  pub min : Option ℕ
  pub max : Option ℕ

pub record InferenceMetadata : Type 0 where
  pub backend : Text
  pub model_path : FilePath
  pub model_variant : ModelVariant
  pub input_name : Text
  pub input_dtype : Text
  pub original_width : ℕ
  pub original_height : ℕ
  pub processed_width : ℕ
  pub processed_height : ℕ
  pub elapsed_ms : ℕ
  pub task_token : Text
  pub prompt_text : Text
  pub generated_text : Text
  pub generated_tokens : ℕ
  pub result : OcrResult
  pub generations : List GenerationMetadata
  pub outputs : List TensorMetadata

pub record JobRecord : Type 0 where
  pub id : Uuid
  pub status : JobStatus
  pub created_at : Time
  pub updated_at : Time
  pub image_path : FilePath
  pub filename : Option Text
  pub content_type : Option Text
  pub image_sha256 : Text
  pub image_bytes : ℕ
  pub input_kind : InputKind
  pub source_path : Option FilePath
  pub document_filename : Option Text
  pub document_page : Option ℕ
  pub document_pages : Option ℕ
  pub text_input : Option Text
  pub webhook_url : Option Text
  pub result : Option InferenceMetadata
  pub error : Option ErrorMessage

-- `/v1/jobs/{id}`
pub data StatusUrl : Type 0 where
  job_url : Uuid → StatusUrl

pub record QueueResponse : Type 0 where
  pub id : Uuid
  pub status : JobStatus
  pub status_url : StatusUrl

pub record PdfQueueResponse : Type 0 where
  pub kind : Text
  pub page_count : ℕ
  pub jobs : List QueueResponse

pub data SubmissionResponse : Type 0 where
  image : QueueResponse → SubmissionResponse
  pdf : PdfQueueResponse → SubmissionResponse
