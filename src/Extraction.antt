-- ===== src/Extraction.antt =====
-- internal/extraction: captions to structured recipes.
pub mod Types
pub mod Hybrid
pub mod Caption
pub mod Wrap
pub mod Score
pub mod Llm
pub mod Expressions
pub mod Units
pub mod Categories
pub mod Rules
pub mod Transports
