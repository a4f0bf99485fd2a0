-- ===== src/Ingestion/Pipeline/Ingested.antt =====
-- What an ingested trace is.
use rootcause.Prelude.{
  ℕ, ◌≡◌, inl, inr, ◌∙◌, false, List, Result, ok, >>=-eq-ok, any, Bool-cases, ok-injective, sym,
}
use rootcause.Facts.Trace.{TraceSource, Trace}
use rootcause.Ingestion.Error.{IngestionError}
use rootcause.Ingestion.Raw.{RawTraceDocument}
use rootcause.Ingestion.Normalize.Walk.{NormalizedTrace, normalize}
use rootcause.Ingestion.Normalize.Valid.{IsValid, normalize-IsValid}
use rootcause.Ingestion.Build.Made.{made_of}
use rootcause.Ingestion.Build.Content.{moves_static_value, arena_of}
use rootcause.Ingestion.Build.Outcome.{build_outcome}
use rootcause.Ingestion.Build.Small.{build-IsSmall}
use rootcause.Ingestion.Pipeline.{ingest}

-- A trace that is ingested is the trace of a document that was read and decoded: of valid normalized
-- facts of that document, no static call of which has a value, with every fact at its position.
pub ingest-IsValid :
    (load : Result IngestionError (List ℕ))
    (decode : List ℕ → Result IngestionError RawTraceDocument) (provenance : TraceSource)
    (t : Trace)
    → ingest load decode provenance ≡ ok t
    → (bytes : List ℕ) × (raw : RawTraceDocument) × (n : NormalizedTrace) × (load ≡ ok bytes)
      × (decode bytes ≡ ok raw)
      × (normalize raw ≡ ok n)
      × IsValid n
      × (any moves_static_value n.calls ≡ false)
      × (t ≡ made_of n provenance (arena_of n))
unfolding ingest
ingest-IsValid load decode provenance t h =
    let (bytes, loaded, h₁) = >>=-eq-ok load _ h in
    let (raw, decoded, h₂) = >>=-eq-ok (decode bytes) _ h₁ in
    let (n, normal, h₃) = >>=-eq-ok (normalize raw) _ h₂ in
    let valid = normalize-IsValid raw n normal in
    let outcome = build_outcome n provenance valid (build-IsSmall n provenance t h₃) in
    elim (Bool-cases (any moves_static_value n.calls)) [
      | inl refused ↦ absurd (let stopped = rw refused at outcome in cc)
      | inr accepted ↦
          let made = rw accepted at outcome in
          (bytes, raw, n, loaded, decoded, normal, valid, accepted, ok-injective (sym h₃ ∙ made))
    ]
