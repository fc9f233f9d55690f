-- ===== src/Configuration.antt =====
-- Capability configuration (src/document_insight/application/configuration/).
pub mod Models
pub mod Profiles
pub mod Resolver
