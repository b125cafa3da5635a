-- ===== src/Jobs/Store.antt =====
-- src/jobs/store.rs: the metadata files, startup recovery, compaction and retention.
-- A JSONL file is its list of lines, `none` when it does not exist. A line is the record that
-- serde reads from it, blank, or text that serde refuses.
pub mod Files
pub mod Retention
pub mod Recent
pub mod Load
mod Tests
