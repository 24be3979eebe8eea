-- ===== src/Api.antt =====
-- The OneFS API client (isilon_api.go).
pub mod Types
pub mod Json
pub mod Client
