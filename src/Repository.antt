-- ===== src/Repository.antt =====
-- internal/repository.
pub mod Recipes
pub mod Reads
pub mod Lookups
pub mod Interfaces
pub mod Postgres
