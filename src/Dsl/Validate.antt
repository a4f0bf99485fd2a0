-- ===== src/Dsl/Validate.antt =====
-- crates/dsl/src/validate.rs. Each function gives the diagnostics that the source's pushes, in order.
pub mod Clean
pub mod Metadata
pub mod Evidence
pub mod References
pub mod Valid
use rootcause.Prelude.{List, ◌++◌}
use rootcause.Dsl.Ast.{PatternAst}
use rootcause.Dsl.Diagnostics.{Diagnostics}
use rootcause.Dsl.Validate.Metadata.{validate_metadata}
use rootcause.Dsl.Validate.Evidence.{validate_evidence, declared}
use rootcause.Dsl.Validate.References.{validate_constraint, validate_sequence, validate_same_call}

unfoldable pub validate : PatternAst → Diagnostics
unfolding validate_metadata validate_evidence validate_constraint validate_sequence
    validate_same_call
validate p =
    let names = declared p.evidence in
    validate_metadata p
    ++ (validate_evidence p
        ++ (validate_constraint p names
            ++ (validate_sequence p names ++ validate_same_call p names)))
