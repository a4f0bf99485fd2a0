-- ===== src/Ingestion/Pipeline.antt =====
-- crates/ingestion/src/pipeline.rs: `ingest`.
--
-- Reading the bytes (source.rs) and `serde_json` (decode.rs) are parameters.
pub mod Ingested
use rootcause.Prelude.{ℕ, List, Result, ◌>>=◌}
use rootcause.Facts.Trace.{TraceSource, Trace}
use rootcause.Ingestion.Error.{IngestionError}
use rootcause.Ingestion.Raw.{RawTraceDocument}
use rootcause.Ingestion.Normalize.Walk.{normalize}
use rootcause.Ingestion.Build.{build}

module _ (load : Result IngestionError (List ℕ))
    (decode : List ℕ → Result IngestionError RawTraceDocument) where
  unfoldable pub ingest : TraceSource → Result IngestionError Trace
  unfolding normalize build
  ingest provenance = load >>= λ bytes.
      decode bytes >>= λ raw. normalize raw >>= λ normalized. build normalized provenance
