-- ===== src/Api.antt =====
-- src/api.rs and src/api: the HTTP layer.
pub mod Http
pub mod Security
pub mod Submit
pub mod Views
