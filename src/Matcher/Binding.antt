-- ===== src/Matcher/Binding.antt =====
-- crates/matcher/src/binding.rs, error.rs, and `Binding` of predicate.rs: what the matcher returns.
use rootcause.Prelude.{ℕ, Bool, Option, none, some, List, String, ◌==◌, nat_Eq, find}
use rootcause.Facts.Types.{FactRef}
use rootcause.Dsl.Ir.{EvidenceRef, Severity}

-- A fact that satisfies a predicate, with its place in execution order.
pub record Binding : Type 0 where
  pub fact : FactRef
  pub order : Option ℕ  -- u32
  pub unresolved_attrs : List String

pub record EvidenceBinding : Type 0 where
  pub evidence : EvidenceRef
  pub fact : FactRef

pub record UnresolvedAttribute : Type 0 where
  pub evidence : EvidenceRef
  pub attribute : String
  pub reason : String

pub record MatchMetadata : Type 0 where
  pub unresolved_attributes : List UnresolvedAttribute
  pub sequence_checked : Bool

pub record CandidateMatch : Type 0 where
  pub pattern_id : String
  pub pattern_version : ℕ
  pub pattern_family : String
  pub pattern_severity : Severity
  pub bindings : List EvidenceBinding
  pub metadata : MatchMetadata

-- `CandidateMatch::fact_for`
unfoldable pub fact_for : CandidateMatch → EvidenceRef → Option FactRef
fact_for m e = elim (find (λ (b : EvidenceBinding). b.evidence == e) m.bindings) [
  | none ↦ none
  | some b ↦ some b.fact
]

pub data MatcherError : Type 0 where
  dangling_evidence_ref : String → EvidenceRef → MatcherError
