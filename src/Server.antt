-- ===== src/Server.antt =====
-- internal/server: the wiring of the parts.
pub mod Extractors
pub mod Fetchers
pub mod Imports
