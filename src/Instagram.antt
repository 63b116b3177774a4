-- ===== src/Instagram.antt =====
-- internal/instagram: the saved posts of an account.
pub mod Types
pub mod Saved
pub mod Client
pub mod Collections
pub mod Fetcher
