-- ===== src/Pipeline.antt =====
-- internal/pipeline: the import flow.
pub mod Sanitize
pub mod Vocabulary
pub mod Convert
pub mod Failure
pub mod Run
pub mod Worker
