-- ===== src/Ingestion.antt =====
-- crates/ingestion/src: from the text of a trace document to a validated trace.
pub mod Error
pub mod Raw
pub mod HexUtil
pub mod Normalize
pub mod Build
pub mod Pipeline
