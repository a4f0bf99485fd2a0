-- ===== src/Facts.antt =====
-- The crate `fact-model`: the immutable facts of one transaction trace.
pub mod Types
pub mod Arena
pub mod Trace
