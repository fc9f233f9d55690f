-- ===== src/Chunker.antt =====
-- The page-window chunker (src/document_insight/infrastructure/document_chunker/page_window.py):
-- text is a list of code points, and a `while` loop takes fuel.
pub mod Text
pub mod Window
pub mod Strip
pub mod Bounds
pub mod Passage
pub mod Exact
pub mod Loop
pub mod Join
pub mod Document
pub mod Pages
mod Tests
