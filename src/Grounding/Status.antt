-- ===== src/Grounding/Status.antt =====
-- crates/grounding/src/status.rs, error.rs and the records of report.rs.
--
-- The texts of `reason` and `detail` are the constructors of `Reason`, one for each message of the
-- source, with the values that the message shows.
use rootcause.Prelude.{ℕ, Bool, true, false, Option, List, String}
use rootcause.Facts.Types.{FactRef}
use rootcause.Dsl.Ir.{EvidenceRef, Requiredness}

pub data GroundingStatus : Type 0 where
  grounded ungrounded abstain : GroundingStatus

pub data EvidenceOutcome : Type 0 where
  verified failed unavailable unsupported : EvidenceOutcome

pub data AbstentionCategory : Type 0 where
  missing_fact unresolvable_layout ambiguous_attribution structural_mismatch : AbstentionCategory

pub data Polarity : Type 0 where
  positive negative unreferenced : Polarity

pub data Reason : Type 0 where
  absence_confirmed no_fact reconfirmed not_satisfying own_fact : Reason
  attributes_unverifiable : ℕ → List String → Reason
  absence_contradicted : ℕ → Reason
  no_verifier : String → Reason
  sequence_unconfirmed sequence_refuted same_call_unconfirmed same_call_refuted : Reason

pub record VerifierOutcome : Type 0 where
  pub outcome : EvidenceOutcome
  pub fact : Option FactRef
  pub unresolved_attrs : List String
  pub reason : Reason

-- `notes` holds the names of the attributes that the source formats into its notes.
pub record EvidenceVerification : Type 0 where
  pub evidence : EvidenceRef
  pub name : String
  pub requiredness : Requiredness
  pub polarity : Polarity
  pub outcome : EvidenceOutcome
  pub facts : List FactRef
  pub reason : Reason
  pub notes : List String

pub record AbstainReason : Type 0 where
  pub category : AbstentionCategory
  pub evidence : Option EvidenceRef
  pub detail : Reason

pub record ConfidenceMetadata : Type 0 where
  pub required_total : ℕ
  pub required_verified : ℕ
  pub optional_total : ℕ
  pub optional_verified : ℕ
  pub sequence_verified : Option Bool
  pub same_call_verified : Option Bool

pub data GroundingError : Type 0 where
  internal : String → GroundingError
  unsupported_verifier : String → GroundingError
  missing_facts : FactRef → GroundingError
  incomplete_trace : String → ℕ → String → ℕ → GroundingError
  verification_failure : EvidenceRef → GroundingError

abbrev pub is_verified : EvidenceOutcome → Bool
is_verified verified = true
is_verified _ = false

abbrev pub is_required : Requiredness → Bool
is_required Requiredness.required = true
is_required Requiredness.optional = false

abbrev pub is_negative : Polarity → Bool
is_negative negative = true
is_negative _ = false
