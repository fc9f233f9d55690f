-- ===== src/Evaluation.antt =====
-- Offline evaluation: the scores (application/evaluation/scoring.py) and the table of runs
-- (infrastructure/evaluation_run/repository.py).
pub mod Scoring
pub mod Bounds
pub mod Aggregation
pub mod Recall
pub mod Anchors
pub mod Manifest
pub mod ManifestForm
pub mod RunTable
pub mod RunLifecycle
pub mod RunHistory
pub mod RunRecovery
pub mod GateReview
pub mod GateDecision
mod Tests
mod FormTests
mod RunTests
mod GateTests
