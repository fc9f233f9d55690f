-- ===== src/Codec.antt =====
-- Python's text forms of numbers and UUIDs, which the evaluation stores in its anchors and its JSON
-- columns.
pub mod Digits
pub mod Decimal
pub mod Uuid
pub mod Split
pub mod Json
mod Tests
