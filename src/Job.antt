-- ===== src/Job.antt =====
-- The processing-job ledger (src/document_insight/infrastructure/job/ and application/jobs/).
pub mod Model
pub mod Repository
pub mod Requeue
pub mod Claims
pub mod Lifecycle
mod Tests
