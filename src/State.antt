-- ===== src/State.antt =====
-- The shared state of src/state.rs: the worker pool's counters, the metrics and the rate limiter.
pub mod Word
pub mod Workers
pub mod Metrics
pub mod RateLimiter
