-- ===== src/Ingestion.antt =====
-- Uploads (src/document_insight/application/ingestion/).
pub mod Request
pub mod Settings
pub mod Departments
pub mod Registration
pub mod Service
pub mod Outcome
pub mod Compensation
pub mod Numbering
pub mod Authorization
mod Tests
