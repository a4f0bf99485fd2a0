-- ===== src/Ingestion/Error.antt =====
-- crates/ingestion/src/error.rs. The text that `format!` puts together is the data that goes into it.
--
-- `panicked` is a panic, and `out_of_fuel` a loop that was given too little fuel; neither is a value
-- of the source.
use rootcause.Prelude.{ℕ, List, String}
use rootcause.Facts.Types.{Address, FactModelError}

-- `root.calls[i].calls[j]`, as the indices from the innermost out.
abbrev pub CallPath : Type 0
CallPath = List ℕ

-- What the reason of an `UnsupportedFeature` is about.
pub data Feature : Type 0 where
  unknown_status : String → Feature
  unknown_kind : List ℕ → CallPath → Feature
  too_deep : CallPath → Feature
  no_parent_context : CallPath → Feature
  too_many_topics : CallPath → Feature
  log_index_too_large : ℕ → Feature

pub data IngestionError : Type 0 where
  source_unavailable : String → IngestionError
  malformed_input : String → IngestionError
  malformed_field : String → String → String → IngestionError
  missing_required : String → IngestionError
  unsupported_feature : Feature → IngestionError
  inconsistent_structure : String → IngestionError
  invalid_storage_ownership : CallPath → Address → Address → IngestionError
  duplicate_log_index : ℕ → IngestionError
  arena_construction : FactModelError → IngestionError
  trace_construction : String → IngestionError
  panicked : IngestionError
  out_of_fuel : IngestionError
