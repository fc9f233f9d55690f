-- ===== src/Recovery.antt =====
-- The recovery of stalled jobs (src/document_insight/application/processing/reconciliation.py).
pub mod Reconciler
pub mod Distinct
pub mod Candidates
pub mod Completeness
mod Tests
