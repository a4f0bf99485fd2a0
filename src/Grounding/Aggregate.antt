-- ===== src/Grounding/Aggregate.antt =====
-- crates/grounding/src/engine.rs, `aggregate_status` and `compute_confidence`.
pub mod Verdict
use rootcause.Prelude.{
  ℕ, suc, Bool, true, false, not, ◌&&◌, ◌||◌, Option, none, some, List, [], ◌∷◌, ◌++◌, filter, any,
  if◌then◌else◌,
}
use rootcause.Dsl.Ir.{
  EvidenceRef, Requiredness, required, optional, CompiledEvidence, CompiledPattern,
}
use rootcause.Grounding.Status.{
  GroundingStatus, grounded, ungrounded, abstain, EvidenceOutcome, verified, failed, unavailable,
  unsupported, missing_fact, unresolvable_layout, ambiguous_attribution, structural_mismatch,
  Reason, sequence_unconfirmed, sequence_refuted, same_call_unconfirmed, same_call_refuted,
  EvidenceVerification, AbstainReason, ConfidenceMetadata, is_verified, is_required,
}

-- The three variables of `aggregate_status`.
pub record Tally : Type 0 where
  pub abstain_reasons : List AbstainReason
  pub any_uncertain : Bool
  pub any_failed : Bool

-- One round of the loop over the required entries.
tally_entry : Tally → EvidenceVerification → Tally
tally_entry s e = elim e.outcome [
  | unavailable ↦ record s {
    any_uncertain = true;
    abstain_reasons =
        s.abstain_reasons
        ++ record { category = missing_fact; evidence = some e.evidence; detail = e.reason } ∷ [];
  }
  | unsupported ↦ record s {
    any_uncertain = true;
    abstain_reasons =
        s.abstain_reasons
        ++ record { category = unresolvable_layout; evidence = some e.evidence; detail = e.reason }
          ∷ [];
  }
  | failed ↦ record s {
    any_failed = true;
    abstain_reasons =
        s.abstain_reasons
        ++ record { category = structural_mismatch; evidence = some e.evidence; detail = e.reason }
          ∷ [];
  }
  | verified ↦ s
]

tally_entries : Tally → List EvidenceVerification → Tally
unfolding tally_entry
tally_entries s [] = s
tally_entries s (e ∷ es) = tally_entries (tally_entry s e) es

-- The `match` on the outcome of a relation, with its two messages.
tally_relation : Reason → Reason → Tally → Option EvidenceOutcome → Tally
tally_relation unsettled contradicted s none = s
tally_relation unsettled contradicted s (some verified) = s
tally_relation unsettled contradicted s (some failed) = record s {
  any_failed = true;
  abstain_reasons =
      s.abstain_reasons
      ++ record { category = ambiguous_attribution; evidence = none; detail = contradicted } ∷ [];
}
tally_relation unsettled contradicted s (some _) = record s {
  any_uncertain = true;
  abstain_reasons =
      s.abstain_reasons
      ++ record { category = ambiguous_attribution; evidence = none; detail = unsettled } ∷ [];
}

abbrev pub no_tally : Tally
no_tally = record { abstain_reasons = []; any_uncertain = false; any_failed = false }

abbrev pub required_entries : List EvidenceVerification → List EvidenceVerification
required_entries chain = filter (λ (e : EvidenceVerification). is_required e.requiredness) chain

tally : List EvidenceVerification → Option EvidenceOutcome → Option EvidenceOutcome → Tally
unfolding tally_entries tally_relation
tally chain sequence same_call =
    tally_relation same_call_unconfirmed same_call_refuted
      (tally_relation sequence_unconfirmed sequence_refuted
        (tally_entries no_tally (required_entries chain)) sequence)
      same_call

abbrev status_of : Tally → GroundingStatus
status_of s = if s.any_uncertain then abstain else if s.any_failed then ungrounded else grounded

-- Reasons are carried only when the status is `Abstain`.
unfoldable pub aggregate_status :
    List EvidenceVerification
    → Option EvidenceOutcome
    → Option EvidenceOutcome
    → GroundingStatus × List AbstainReason
unfolding tally
aggregate_status chain sequence same_call =
    let s = tally chain sequence same_call in
    (status_of s, elim (status_of s) [ abstain ↦ s.abstain_reasons | _ ↦ [] ])

-- One round of the loop of `compute_confidence`.
count_entry : ConfidenceMetadata → Requiredness → EvidenceOutcome → ConfidenceMetadata
count_entry c required o = record c {
  required_total = suc c.required_total;
  required_verified = if is_verified o then suc c.required_verified else c.required_verified;
}
count_entry c optional o = record c {
  optional_total = suc c.optional_total;
  optional_verified = if is_verified o then suc c.optional_verified else c.optional_verified;
}

count_entries :
    ConfidenceMetadata → List CompiledEvidence → List EvidenceVerification → ConfidenceMetadata
unfolding count_entry
count_entries c (d ∷ ds) (e ∷ es) = count_entries (count_entry c d.requiredness e.outcome) ds es
count_entries c _ _ = c

abbrev map_verified : Option EvidenceOutcome → Option Bool
map_verified none = none
map_verified (some o) = some (is_verified o)

unfoldable pub compute_confidence :
    CompiledPattern
    → List EvidenceVerification
    → Option EvidenceOutcome
    → Option EvidenceOutcome
    → ConfidenceMetadata
unfolding count_entries
compute_confidence p chain sequence same_call =
    count_entries
      (record {
        required_total = 0;
        required_verified = 0;
        optional_total = 0;
        optional_verified = 0;
        sequence_verified = map_verified sequence;
        same_call_verified = map_verified same_call;
      })
      p.evidence chain
