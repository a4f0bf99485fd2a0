-- ===== src/Dsl/Diagnostics.antt =====
-- crates/dsl/src/diagnostics.rs: what validation reports.
--
-- The texts of a diagnostic are the constructors of `Problem`, one for each message of validate.rs,
-- with the names that the message shows.
use rootcause.Prelude.{Bool, true, false, List, String, any}
use rootcause.Prelude.Int.{ℤ}
use rootcause.Dsl.Ast.{Span}

pub data Severity : Type 0 where
  error warning : Severity

pub data Problem : Type 0 where
  version_not_positive : ℤ → Problem
  duplicate_key : String → Span → Problem
  missing_family missing_severity : Problem
  family_not_identifier severity_not_identifier : Problem
  unknown_severity : String → Problem
  not_a_string_list : String → Problem
  unknown_key : String → Problem
  duplicate_evidence : String → Problem
  no_evidence only_optional_evidence : Problem
  unknown_predicate : String → Problem
  duplicate_attribute : String → Problem
  unknown_attribute : String → String → Problem
  unknown_value : String → String → Problem
  wrong_shape : String → Problem
  missing_attribute : String → String → Problem
  static_reentrancy : Problem
  required_not_referenced : String → Problem
  unknown_evidence : String → Problem
  too_few_steps too_few_members : Problem
  repeated_step : String → Problem
  repeated_member : String → Problem
  window_not_positive : Problem

pub record Diagnostic : Type 0 where
  pub severity : Severity
  pub location : Span
  pub problem : Problem

abbrev pub Diagnostics : Type 0
Diagnostics = List Diagnostic

-- `Diagnostic::error` and `Diagnostic::warning`
abbrev pub error_at : Span → Problem → Diagnostic
error_at location problem = record { severity = error; location = location; problem = problem }

abbrev pub warning_at : Span → Problem → Diagnostic
warning_at location problem = record { severity = warning; location = location; problem = problem }

abbrev pub is_error : Severity → Bool
is_error error = true
is_error warning = false

-- `Diagnostics::has_errors`
unfoldable pub has_errors : Diagnostics → Bool
has_errors diags = any (λ (d : Diagnostic). is_error d.severity) diags
