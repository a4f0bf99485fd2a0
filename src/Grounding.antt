-- ===== src/Grounding.antt =====
-- The crate `grounding`: independent re-verification of a candidate against the trace.
pub mod Status
pub mod Polarity
pub mod Verifier
pub mod Relations
pub mod Aggregate
pub mod Engine
