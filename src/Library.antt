-- ===== src/Library.antt =====
-- Activation, the listing, and the authorized view of a job (src/document_insight/application/documents/ and
-- application/jobs/service.py).
pub mod Activation
pub mod JobView
pub mod Listing
pub mod Shelf
pub mod Visibility
pub mod Pointers
mod Tests
