-- ===== src/Dsl/Validate/References.antt =====
-- validate.rs: the constraint, the sequence and the same-call group, against the declared names.
pub mod Valid
use rootcause.Prelude.{
  ℕ, Bool, true, false, not, ◌&&◌, Option, none, some, List, [], ◌∷◌, ◌++◌, String, string_Eq, ◌==◌,
  contains, length, ltb, if◌then◌else◌,
}
use rootcause.Prelude.Int.{pos, leb_int}
use rootcause.Dsl.Ast.{
  SpannedString, SpannedInt, EvidenceDecl, BoolExpr, Exprs, evidence_ref, and_expr, or_expr,
  not_expr, stop, item, SequenceConstraint, SameCallConstraint, PatternAst,
}
use rootcause.Dsl.Diagnostics.{
  Problem, Diagnostics, error_at, warning_at, required_not_referenced, unknown_evidence,
  too_few_steps, too_few_members, repeated_step, repeated_member, window_not_positive,
}
use rootcause.Dsl.Validate.Evidence.{is_required_decl}

-- `check_bool_expr`: its diagnostics, and below it the names that it adds to `referenced`.
unfoldable mutual
  pub check_bool_expr : BoolExpr → List String → Diagnostics
  check_bool_expr (evidence_ref name) names =
      if contains names name.value
      then []
      else error_at name.span (unknown_evidence name.value) ∷ []
  check_bool_expr (and_expr items span) names = check_exprs items names
  check_bool_expr (or_expr items span) names = check_exprs items names
  check_bool_expr (not_expr inner span) names = check_bool_expr inner names

  pub check_exprs : Exprs → List String → Diagnostics
  check_exprs stop names = []
  check_exprs (item e es) names = check_bool_expr e names ++ check_exprs es names

unfoldable mutual
  pub references_of : BoolExpr → List String → List String
  references_of (evidence_ref name) names =
      if contains names name.value then name.value ∷ [] else []
  references_of (and_expr items span) names = exprs_references items names
  references_of (or_expr items span) names = exprs_references items names
  references_of (not_expr inner span) names = references_of inner names

  pub exprs_references : Exprs → List String → List String
  exprs_references stop names = []
  exprs_references (item e es) names = references_of e names ++ exprs_references es names

-- The loop that warns of required clauses that the constraint leaves out.
unfoldable pub warn_unreferenced : List EvidenceDecl → List String → Diagnostics
warn_unreferenced [] referenced = []
warn_unreferenced (d ∷ decls) referenced =
    if is_required_decl d && not (contains referenced d.name.value)
    then warning_at d.name.span (required_not_referenced d.name.value)
      ∷ warn_unreferenced decls referenced
    else warn_unreferenced decls referenced

unfoldable pub validate_constraint : PatternAst → List String → Diagnostics
unfolding check_bool_expr references_of warn_unreferenced
validate_constraint p names = elim p.constraint [
  | none ↦ []
  | some constraint ↦
      check_bool_expr constraint names
      ++ warn_unreferenced p.evidence (references_of constraint names)
]

-- The loop over the steps, or the members, with those seen so far and the message on a repetition.
unfoldable pub check_listed :
    (String → Problem) → List String → List String → List SpannedString → Diagnostics
check_listed repeated names seen [] = []
check_listed repeated names seen (s ∷ ss) =
    (if contains names s.value then [] else error_at s.span (unknown_evidence s.value) ∷ [])
    ++ ((if contains seen s.value then error_at s.span (repeated s.value) ∷ [] else [])
        ++ check_listed repeated names (s.value ∷ seen) ss)

unfoldable pub check_window : Option SpannedInt → Diagnostics
check_window none = []
check_window (some window) =
    if leb_int window.value (pos 0) then error_at window.span window_not_positive ∷ [] else []

unfoldable pub validate_sequence : PatternAst → List String → Diagnostics
unfolding check_listed check_window
validate_sequence p names = elim p.sequence [
  | none ↦ []
  | some sequence ↦
      (if ltb (length sequence.steps) 2 then error_at sequence.span too_few_steps ∷ [] else [])
      ++ (check_listed repeated_step names [] sequence.steps
          ++ check_window sequence.within_seconds)
]

unfoldable pub validate_same_call : PatternAst → List String → Diagnostics
unfolding check_listed
validate_same_call p names = elim p.same_call [
  | none ↦ []
  | some same_call ↦
      (if ltb (length same_call.members) 2
        then error_at same_call.span too_few_members ∷ []
        else [])
      ++ check_listed repeated_member names [] same_call.members
]
