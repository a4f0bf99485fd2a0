-- ===== src/Tests/Grounding.antt =====
-- The theorems on grounding at the trace and the pattern of Data.
use rootcause.Prelude.{
  ◌≡◌, refl, ◌↔◌, ◌⊎◌, inl, true, false, Option, none, some, List, [], ◌∷◌, Member, ok, err, arith,
  inr,
}
use rootcause.Facts.Types.{FactRef, storage_change_ref, CallId, call_ref}
use rootcause.Facts.Arena.{saturate_u32, storage_change, call}
use rootcause.Dsl.Ir.{
  EvidenceRef, CompiledEvidence, CompiledConstraint, evidence, and_of, not_of, nil, cons,
  Requiredness,
}
use rootcause.Matcher.Binding.{fact_for}
use rootcause.Matcher.Constraint.Polarity.{Occurs}
use rootcause.Matcher.Index.{build_index}
use rootcause.Matcher.Predicate.{evaluate}
use rootcause.Grounding.Status.{
  grounded, ungrounded, abstain, EvidenceOutcome, verified, failed, unavailable, Polarity, positive,
  negative, EvidenceVerification, no_fact, verification_failure, is_required,
}
use rootcause.Grounding.Polarity.{analyze, polarity_of}
use rootcause.Grounding.Polarity.Signs.{polarity_of-analyze, analyze-err}
use rootcause.Grounding.Verifier.{verify_via_matcher_predicate}
use rootcause.Grounding.Verifier.Outcomes.{IsBacked, verify_via_matcher_predicate-IsBacked}
use rootcause.Grounding.Relations.{verify_sequence, verify_same_call}
use rootcause.Grounding.Relations.Confirmed.{
  IsProducedBy, HasVerifiedFact, verify_same_call-verified,
}
use rootcause.Grounding.Relations.Ordered.{KeyNotAfter, verify_sequence-verified}
use rootcause.Matcher.Identity.{order_key}
use rootcause.Grounding.Aggregate.{aggregate_status}
use rootcause.Grounding.Aggregate.Verdict.{
  IsConfirmed, HasOutcome, is_unsettled, is_failed, aggregate_status-grounded_iff,
  aggregate_status-abstain_iff, aggregate_status-ungrounded_iff,
}
use rootcause.Grounding.Engine.{GroundingResult, ground_candidate}
use rootcause.Grounding.Engine.Grounded.{ground_candidate-grounded}
use rootcause.Grounding.Engine.Total.{ground_candidate-total}
use rootcause.Tests.Data.{
  reentrant_trace, reentrancy, reentrancy_candidate, any_write, clause, reentrant-IsIndexed,
  reentrant-found, write_follows_reentry, write_in_reentry,
}

reentrancy-grounded :
    (r : GroundingResult) × (ground_candidate reentrancy_candidate reentrant_trace reentrancy
      ≡ ok r)
    × (r.status ≡ grounded)
unfolding ground_candidate storage_change verify_via_matcher_predicate evaluate
reentrancy-grounded = (_, refl, refl)

abbrev write_clause : CompiledEvidence
write_clause = clause "write" Requiredness.required any_write

ground_candidate-grounded_example :
    (analyzed : List (EvidenceRef × Polarity)) × (fact : Option FactRef) × (analyze
        reentrancy.constraint
      ≡ ok analyzed)
    × IsBacked
        (evaluate reentrant_trace (build_index reentrant_trace) any_write)
        (polarity_of analyzed (saturate_u32 1))
        (fact_for reentrancy_candidate (saturate_u32 1))
        fact
    × IsConfirmed (verify_sequence reentrant_trace reentrancy reentrancy-grounded.0.evidence_chain)
    × IsConfirmed (verify_same_call reentrant_trace reentrancy reentrancy-grounded.0.evidence_chain)
ground_candidate-grounded_example =
    ground_candidate-grounded reentrancy_candidate reentrant_trace reentrancy reentrancy-grounded.0
      1 write_clause reentrancy-grounded.1 reentrancy-grounded.2 refl refl

ground_candidate-total_example :
    ((r : GroundingResult) × (ground_candidate reentrancy_candidate reentrant_trace reentrancy
        ≡ ok r))
    ⊎ ((e : EvidenceRef) × (analyze reentrancy.constraint ≡ err e)
        × (ground_candidate reentrancy_candidate reentrant_trace reentrancy
            ≡ err (verification_failure e)))
ground_candidate-total_example =
    ground_candidate-total reentrant_trace (build_index reentrant_trace) reentrancy
      (reentrancy_candidate ∷ []) reentrancy_candidate reentrant-IsIndexed (omega arith)
      reentrant-found (inl refl)

abbrev entry_with : EvidenceRef → EvidenceOutcome → EvidenceVerification
entry_with e o = record {
  evidence = e;
  name = "clause";
  requiredness = Requiredness.required;
  polarity = positive;
  outcome = o;
  facts = [];
  reason = no_fact;
  notes = [];
}

abbrev mixed_chain : List EvidenceVerification
mixed_chain = entry_with 0 verified ∷ entry_with 1 failed ∷ entry_with 2 unavailable ∷ []

aggregate_status-grounded_iff_example :
    ((aggregate_status mixed_chain (some verified) none).0 ≡ grounded) ↔ (
      ((e : EvidenceVerification)
        → Member e mixed_chain
        → is_required e.requiredness ≡ true
        → e.outcome ≡ verified)
      × IsConfirmed (some verified)
      × IsConfirmed none)
aggregate_status-grounded_iff_example =
    aggregate_status-grounded_iff mixed_chain (some verified) none

aggregate_status-abstain_iff_example :
    ((aggregate_status mixed_chain (some verified) none).0 ≡ abstain)
    ↔ HasOutcome is_unsettled mixed_chain (some verified) none
aggregate_status-abstain_iff_example = aggregate_status-abstain_iff mixed_chain (some verified) none

aggregate_status-ungrounded_iff_example :
    ((aggregate_status mixed_chain (some verified) none).0 ≡ ungrounded) ↔ (
      ¬ HasOutcome is_unsettled mixed_chain (some verified) none
      × HasOutcome is_failed mixed_chain (some verified) none)
aggregate_status-ungrounded_iff_example =
    aggregate_status-ungrounded_iff mixed_chain (some verified) none

mixed-abstains : (aggregate_status mixed_chain (some verified) none).0 ≡ abstain
unfolding aggregate_status
mixed-abstains = refl

write-verified :
    (verify_via_matcher_predicate reentrant_trace
      (build_index reentrant_trace)
      any_write
      positive
      (some (storage_change_ref 0))).outcome
    ≡ verified
unfolding verify_via_matcher_predicate build_index evaluate
write-verified = refl

verify_via_matcher_predicate-IsBacked_example :
    IsBacked
      (evaluate reentrant_trace (build_index reentrant_trace) any_write)
      positive
      (some (storage_change_ref 0))
      (verify_via_matcher_predicate reentrant_trace
        (build_index reentrant_trace)
        any_write
        positive
        (some (storage_change_ref 0))).fact
verify_via_matcher_predicate-IsBacked_example =
    verify_via_matcher_predicate-IsBacked reentrant_trace (build_index reentrant_trace) any_write
      positive (some (storage_change_ref 0)) write-verified

abbrev reentrancy_signs : List (EvidenceRef × Polarity)
reentrancy_signs = (0, positive) ∷ (1, positive) ∷ (2, negative) ∷ []

reentrancy-signs : analyze reentrancy.constraint ≡ ok reentrancy_signs
unfolding analyze
reentrancy-signs = refl

polarity_of-analyze_example :
    ((polarity_of reentrancy_signs 2 ≡ positive) ↔ Occurs 2 true reentrancy.constraint)
    × ((polarity_of reentrancy_signs 2 ≡ negative) ↔ Occurs 2 false reentrancy.constraint)
    × ¬ (Occurs 2 true reentrancy.constraint × Occurs 2 false reentrancy.constraint)
polarity_of-analyze_example =
    polarity_of-analyze reentrancy.constraint reentrancy_signs 2 reentrancy-signs

abbrev both_signs : CompiledConstraint
both_signs = and_of (cons (evidence 0) (cons (not_of (evidence 0)) nil))

both_signs-refused : analyze both_signs ≡ err 0
unfolding analyze
both_signs-refused = refl

analyze-err_example : Occurs 0 true both_signs × Occurs 0 false both_signs
analyze-err_example = analyze-err both_signs 0 both_signs-refused

abbrev reentrancy_chain : List EvidenceVerification
reentrancy_chain =
    record (entry_with 0 verified) { facts = call_ref 2 ∷ [] }
    ∷ record (entry_with 1 verified) { facts = storage_change_ref 0 ∷ [] }
    ∷ []

reentrancy-ordered : verify_sequence reentrant_trace reentrancy reentrancy_chain ≡ some verified
unfolding verify_sequence call storage_change
reentrancy-ordered = refl

verify_sequence-verified_example :
    (f g : FactRef) × HasVerifiedFact reentrancy_chain 0 f
    × HasVerifiedFact reentrancy_chain 1 g
    × KeyNotAfter (order_key reentrant_trace f) (order_key reentrant_trace g)
verify_sequence-verified_example =
    verify_sequence-verified reentrant_trace reentrancy reentrancy_chain write_follows_reentry 0 1 0
      1 refl reentrancy-ordered (omega arith) refl refl

reentrancy-together : verify_same_call reentrant_trace reentrancy reentrancy_chain ≡ some verified
unfolding verify_same_call storage_change
reentrancy-together = refl

verify_same_call-verified_example :
    (target : CallId) × IsProducedBy reentrant_trace reentrancy_chain target 0
    × IsProducedBy reentrant_trace reentrancy_chain target 1
verify_same_call-verified_example =
    verify_same_call-verified reentrant_trace reentrancy reentrancy_chain write_in_reentry 0 1 refl
      reentrancy-together (inl refl) (inr (inl refl))
