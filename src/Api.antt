-- ===== src/Api.antt =====
-- internal/api: the HTTP interface.
pub mod Http
pub mod Middleware
pub mod Dto
pub mod Handlers
pub mod Routes
