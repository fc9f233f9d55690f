-- ===== src/Provider.antt =====
-- The Mistral adapters: infrastructure/mistral/, infrastructure/reranker/mistral.py and
-- infrastructure/generation/mistral.py.
pub mod Attempts
pub mod Retries
pub mod Reranker
pub mod Scores
pub mod Markers
pub mod Generation
pub mod Citing
pub mod Grounded
pub mod Embedder
pub mod Vectors
mod Tests
