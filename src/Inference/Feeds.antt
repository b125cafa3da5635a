-- ===== src/Inference/Feeds.antt =====
-- The inputs and the cache of the graphs: src/inference/feeds.rs.
pub mod Metadata
pub mod Inputs
pub mod Cache
pub mod Trim
pub mod Whole
