-- ===== src/Approval.antt =====
-- The approval of configuration profiles (application/configuration/approval.py).
pub mod Validation
pub mod Evidence
pub mod Checks
pub mod Resolution
pub mod Pointer
pub mod Service
pub mod Activation
pub mod Requirements
pub mod Cohorts
pub mod Reviews
pub mod Installation
mod Tests
pub mod Staging
