-- ===== src/Query.antt =====
-- Retrieval and grounded answers (src/document_insight/application/query/).
pub mod Models
pub mod Fusion
pub mod Evidence
pub mod Service
pub mod Resolver
pub mod Authorization
pub mod Propagation
pub mod Grounding
mod Tests
