-- ===== src/Jobs/Server.antt =====
-- The state that the tasks of src/jobs share, and the channel between them. The channel is the
-- crate `async_channel`: it is a parameter, with what the code relies on of its documentation.
use unlimited_ocr_server.Prelude.{ℕ, Bool, List, [], ◌∷◌, ◌++◌, ◌≡◌, ◌≢◌}
use unlimited_ocr_server.Types.{Uuid, FilePath}
use unlimited_ocr_server.Types.Task.{TaskSpec}
use unlimited_ocr_server.State.Workers.{WorkerPoolState}
use unlimited_ocr_server.State.Metrics.{AppMetrics}
use unlimited_ocr_server.Jobs.Map.{JobMap}
use unlimited_ocr_server.Jobs.Store.Load.{Metadata}
use unlimited_ocr_server.Jobs.Webhook.{WebhookDeadLetter}

pub record JobRequest : Type 0 where
  pub id : Uuid
  pub image_path : FilePath
  pub task : TaskSpec

pub data SendOutcome : Type 0 where
  sent full closed : SendOutcome

-- `contents` is a view for statements: the code never reads it.
pub record Channel : Type 1 where
  pub Queue : Type 0
  pub is_full : Queue → Bool
  pub len : Queue → ℕ
  pub try_send : JobRequest → Queue → Queue × SendOutcome
  pub contents : Queue → List JobRequest
  pub try_send-sent :
      (r : JobRequest) (q : Queue)
      → (try_send r q).1 ≡ sent
      → contents (try_send r q).0 ≡ contents q ++ r ∷ []
  pub try_send-refused :
      (r : JobRequest) (q : Queue) → (try_send r q).1 ≢ sent → (try_send r q).0 ≡ q

pub record Server (c : Channel) : Type 0 where
  pub jobs : JobMap
  pub queue : c.Queue
  pub workers : WorkerPoolState
  pub metrics : AppMetrics
  pub files : Metadata
  pub dead_letters : List WebhookDeadLetter
  pub images : List FilePath  -- the files on disk that jobs refer to
