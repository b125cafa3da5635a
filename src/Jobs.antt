-- ===== src/Jobs.antt =====
-- The job pipeline of src/jobs: the job map, startup and retention, submission, workers, webhooks.
pub mod Map
pub mod Store
pub mod Webhook
pub mod Server
pub mod Queue
pub mod Worker
pub mod Samples
