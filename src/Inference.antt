-- ===== src/Inference.antt =====
-- Inference: src/inference.rs and the modules under src/inference/.
pub mod Ort
pub mod Feeds
pub mod Tensor
pub mod Prompt
pub mod Generate
pub mod Image
pub mod Parse
pub mod Output
pub mod Worker
pub mod Outcome
pub mod Samples
mod Tests
