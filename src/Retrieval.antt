-- ===== src/Retrieval.antt =====
-- Retrieval inside the caller's scope (src/document_insight/infrastructure/retrieval/).
pub mod Like
pub mod Repository
pub mod Scope
pub mod Sample
mod Tests
