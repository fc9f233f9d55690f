-- ===== src/Store.antt =====
-- The tables that ingestion, processing and the document library share, a module for each
-- repository, and the state of the whole system.
pub mod Versions
pub mod Extracted
pub mod Generations
pub mod Chunks
pub mod Entities
pub mod Documents
pub mod Active
pub mod System
