-- ===== src/Dsl/Validate/Valid.antt =====
-- Validation against a description of valid patterns.
use rootcause.Prelude.{◌≡◌, ◌↔◌, false}
use rootcause.Dsl.Ast.{PatternAst}
use rootcause.Dsl.Diagnostics.{has_errors}
use rootcause.Dsl.Validate.Clean.{IsClean-both}
use rootcause.Dsl.Validate.Metadata.{validate_metadata}
use rootcause.Dsl.Validate.Metadata.Valid.{MetadataIsValid, validate_metadata-MetadataIsValid_iff}
use rootcause.Dsl.Validate.Evidence.{declared, validate_evidence}
use rootcause.Dsl.Validate.Evidence.Valid.{EvidenceIsValid, validate_evidence-EvidenceIsValid_iff}
use rootcause.Dsl.Validate.References.Valid.{ReferencesAreValid, references_iff}
use rootcause.Dsl.Validate.{validate}

-- A valid pattern, in the terms of its language rather than of the checks.
pub record IsValid (p : PatternAst) : Type 0 where
  pub metadata : MetadataIsValid p
  pub evidence : EvidenceIsValid p
  pub references : ReferencesAreValid p (declared p.evidence)

-- Validation reports no error exactly for the valid patterns. The version is positive; the family
-- and the severity are there, and each known metadata key has a value of its shape, the severity
-- one of the four; no metadata key, clause, attribute of a predicate, sequence step or same-call
-- member is repeated; every predicate is of a known kind, with known attributes whose values have
-- the schema's shapes, with the attributes that the schema requires, and no call predicate asks for
-- both a static call and a reentrant one; some clause is required; every name that the constraint,
-- the sequence and the same-call group refer to is declared; the sequence, if there is one, has two
-- steps or more and a positive window, if it has a window; and the same-call group, if there is
-- one, has two members or more.
pub validate-IsValid_iff : (p : PatternAst) → (has_errors (validate p) ≡ false) ↔ IsValid p
unfolding validate
validate-IsValid_iff p =
    let (sound, complete) =
      IsClean-both (validate_metadata p) _ (validate_metadata-MetadataIsValid_iff p) (
        IsClean-both (validate_evidence p) _ (validate_evidence-EvidenceIsValid_iff p)
          (references_iff p (declared p.evidence))) in
    (
      λ h. let (m, (e, r)) = sound h in record { metadata = m; evidence = e; references = r },
      λ v. complete (v.metadata, (v.evidence, v.references)),
    )
