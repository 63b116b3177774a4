-- ===== src/Db.antt =====
-- internal/db: the starting set, the tables and the statements on them, the connection, the
-- migrations and the import lock.
pub mod Seed
pub mod Store
pub mod Statements
pub mod Reads
pub mod Lists
pub mod Connect
pub mod Lock
