-- ===== src/Processing.antt =====
-- The ingestion worker (src/document_insight/application/processing/).
pub mod Failures
pub mod Retry
pub mod Stages
pub mod Service
pub mod Durability
pub mod Checkpoints
pub mod Embedding
pub mod Success
mod Sample
mod Tests
pub mod Backoff
pub mod Returns
pub mod Finish
