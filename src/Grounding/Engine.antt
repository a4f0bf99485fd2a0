-- ===== src/Grounding/Engine.antt =====
-- crates/grounding/src/engine.rs: `ground` and what it calls.
--
-- A `GroundingResult` here has the fields that the verdict rests on. The candidate's hash, the
-- merged list of unresolved attributes and the explanation, which are texts for the reader, are not
-- modelled.
pub mod Total
pub mod Grounded
use rootcause.Prelude.{
  ℕ, suc, Bool, true, false, not, ◌&&◌, Option, none, some, List, [], ◌∷◌, String, Result, ok, err,
  ◌>>=◌, ◌>>◌, try_for_each, ◌==◌, nat_Eq, string_Eq, is_empty, if◌then◌else◌,
}
use rootcause.Facts.Types.{FactRef, call_ref, storage_change_ref, log_ref, token_transfer_ref}
use rootcause.Facts.Arena.{saturate_u32, call, storage_change, log, token_transfer}
use rootcause.Facts.Trace.{Trace}
use rootcause.Dsl.Ir.{Severity, EvidenceRef, CompiledEvidence, CompiledPattern}
use rootcause.Matcher.Binding.{EvidenceBinding, CandidateMatch, fact_for}
use rootcause.Matcher.Engine.{is_some}
use rootcause.Matcher.Index.{TraceIndex, build_index}
use rootcause.Grounding.Status.{
  GroundingStatus, EvidenceOutcome, verified, failed, unavailable, unsupported, Polarity,
  no_verifier, VerifierOutcome, EvidenceVerification, AbstainReason, ConfidenceMetadata,
  GroundingError, unsupported_verifier, missing_facts, incomplete_trace, verification_failure,
}
use rootcause.Grounding.Polarity.{analyze, polarity_of}
use rootcause.Grounding.Verifier.{VerifierRegistry, get_verifier, default_verifiers}
use rootcause.Grounding.Relations.{verify_sequence, verify_same_call}
use rootcause.Grounding.Aggregate.{aggregate_status, compute_confidence}

pub record GroundingResult : Type 0 where
  pub pattern_id : String
  pub pattern_version : ℕ
  pub pattern_family : String
  pub pattern_severity : Severity
  pub status : GroundingStatus
  pub verified_evidence : List EvidenceRef
  pub failed_evidence : List EvidenceRef
  pub unavailable_evidence : List EvidenceRef
  pub unsupported_evidence : List EvidenceRef
  pub confidence : ConfidenceMetadata
  pub evidence_chain : List EvidenceVerification
  pub abstain_reasons : List AbstainReason

pub check_candidate_matches_pattern :
    CandidateMatch → CompiledPattern → Result GroundingError (Unit {0})
check_candidate_matches_pattern c p =
    if c.pattern_id == p.id && c.pattern_version == p.version
    then ok tt
    else err (incomplete_trace c.pattern_id c.pattern_version p.id p.version)

pub fact_resolves : Trace → FactRef → Bool
unfolding call storage_change log token_transfer
fact_resolves t (call_ref id) = is_some (call t.arena id)
fact_resolves t (storage_change_ref id) = is_some (storage_change t.arena id)
fact_resolves t (log_ref id) = is_some (log t.arena id)
fact_resolves t (token_transfer_ref id) = is_some (token_transfer t.arena id)

check_binding : Trace → EvidenceBinding → Result GroundingError (Unit {0})
unfolding fact_resolves
check_binding t b = if fact_resolves t b.fact then ok tt else err (missing_facts b.fact)

pub check_bindings_resolve : CandidateMatch → Trace → Result GroundingError (Unit {0})
unfolding check_binding
check_bindings_resolve c t = try_for_each (check_binding t) c.bindings

verify_one :
    VerifierRegistry
    → Trace
    → TraceIndex
    → CompiledEvidence
    → Polarity
    → Option FactRef
    → Result GroundingError VerifierOutcome
unfolding get_verifier
verify_one registry t index decl polarity cited_fact =
    elim (get_verifier registry decl.predicate.kind) [
      | some verify ↦ ok (verify t index decl.predicate polarity cited_fact)
      | none ↦
          if is_empty registry
          then err (unsupported_verifier decl.predicate.kind)
          else ok (record {
            outcome = unsupported;
            fact = none;
            unresolved_attrs = [];
            reason = no_verifier decl.predicate.kind;
          })
    ]

abbrev pub option_list {ℓ} : {A : Type ℓ} → Option A → List A
option_list none = []
option_list (some a) = a ∷ []

entry_for : EvidenceRef → CompiledEvidence → Polarity → VerifierOutcome → EvidenceVerification
entry_for e decl polarity o = record {
  evidence = e;
  name = decl.name;
  requiredness = decl.requiredness;
  polarity = polarity;
  outcome = o.outcome;
  facts = option_list o.fact;
  reason = o.reason;
  notes = o.unresolved_attrs;
}

-- The loop over the pattern's clauses from index `i` on.
verify_from :
    VerifierRegistry
    → Trace
    → TraceIndex
    → CandidateMatch
    → List (EvidenceRef × Polarity)
    → ℕ
    → List CompiledEvidence
    → Result GroundingError (List EvidenceVerification)
unfolding verify_one entry_for polarity_of fact_for
verify_from registry t index c analyzed i [] = ok []
verify_from registry t index c analyzed i (decl ∷ decls) =
    let e = saturate_u32 i in
    let polarity = polarity_of analyzed e in
    verify_one registry t index decl polarity (fact_for c e) >>= λ o.
    verify_from registry t index c analyzed (suc i) decls >>= λ rest.
    ok (entry_for e decl polarity o ∷ rest)

unfoldable pub verify_all_evidence :
    VerifierRegistry
    → Trace
    → TraceIndex
    → CompiledPattern
    → CandidateMatch
    → List (EvidenceRef × Polarity)
    → Result GroundingError (List EvidenceVerification)
unfolding verify_from
verify_all_evidence registry t index p c analyzed =
    verify_from registry t index c analyzed 0 p.evidence

abbrev same_outcome : EvidenceOutcome → EvidenceOutcome → Bool
same_outcome verified verified = true
same_outcome failed failed = true
same_outcome unavailable unavailable = true
same_outcome unsupported unsupported = true
same_outcome _ _ = false

-- The clauses of one outcome, in the order of the chain.
with_outcome : EvidenceOutcome → List EvidenceVerification → List EvidenceRef
with_outcome o [] = []
with_outcome o (e ∷ es) =
    let rest = with_outcome o es in if same_outcome e.outcome o then e.evidence ∷ rest else rest

build_result :
    CompiledPattern
    → List EvidenceVerification
    → Option EvidenceOutcome
    → Option EvidenceOutcome
    → GroundingResult
unfolding aggregate_status compute_confidence with_outcome
build_result p chain sequence same_call =
    let (status, reasons) = aggregate_status chain sequence same_call in
    record {
      pattern_id = p.id;
      pattern_version = p.version;
      pattern_family = p.family;
      pattern_severity = p.severity;
      status = status;
      verified_evidence = with_outcome verified chain;
      failed_evidence = with_outcome failed chain;
      unavailable_evidence = with_outcome unavailable chain;
      unsupported_evidence = with_outcome unsupported chain;
      confidence = compute_confidence p chain sequence same_call;
      evidence_chain = chain;
      abstain_reasons = reasons;
    }

-- `analyze(..).map_err(|evidence| VerificationFailure { evidence })`
analyzed_of :
    Result EvidenceRef (List (EvidenceRef × Polarity))
    → Result GroundingError (List (EvidenceRef × Polarity))
analyzed_of (ok a) = ok a
analyzed_of (err e) = err (verification_failure e)

pub result_of : Trace → CompiledPattern → List EvidenceVerification → GroundingResult
unfolding build_result verify_sequence verify_same_call
result_of t p chain = build_result p chain (verify_sequence t p chain) (verify_same_call t p chain)

-- `GroundingEngine::ground`, with the engine's registry as an argument.
unfoldable pub ground_with :
    VerifierRegistry
    → CandidateMatch
    → Trace
    → CompiledPattern
    → Result GroundingError GroundingResult
unfolding check_candidate_matches_pattern check_bindings_resolve analyzed_of analyze
    verify_all_evidence build_index result_of
ground_with registry c t p =
    check_candidate_matches_pattern c p
    >> (check_bindings_resolve c t
        >> (analyzed_of (analyze p.constraint) >>= λ analyzed.
            verify_all_evidence registry t (build_index t) p c analyzed >>= λ chain.
            ok (result_of t p chain)))

-- The function `ground` of the crate, with the default verifiers.
unfoldable pub ground_candidate :
    CandidateMatch → Trace → CompiledPattern → Result GroundingError GroundingResult
unfolding ground_with default_verifiers
ground_candidate = ground_with default_verifiers
