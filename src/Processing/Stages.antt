-- ===== src/Processing/Stages.antt =====
-- The stages of `ProcessingService._process_version` (application/processing/service.py), each behind
-- its checkpoint.
pub mod Blocks
pub mod Parsing
pub mod Recognition
pub mod Chunking
pub mod Embedding
