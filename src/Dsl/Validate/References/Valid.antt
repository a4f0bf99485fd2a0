-- ===== src/Dsl/Validate/References/Valid.antt =====
-- Which constraints, sequences and same-call groups validation accepts.
use rootcause.Prelude.{
  ℕ, ◌≤◌, ◌≡◌, refl, ◌↔◌, inl, inr, false, not, ◌&&◌, Option, none, some, List, [], ◌∷◌, ◌++◌,
  String, string_Eq, contains, length, ltb, map, Member, All, Bool-cases, Option-cases, arith,
  if◌then◌else◌,
}
use rootcause.Prelude.Int.{pos, leb_int}
use rootcause.Dsl.Ast.{
  SpannedString, SpannedInt, EvidenceDecl, BoolExpr, Exprs, evidence_ref, and_expr, or_expr,
  not_expr, stop, item, SequenceConstraint, SameCallConstraint, PatternAst,
}
use rootcause.Dsl.Diagnostics.{
  Problem, has_errors, unknown_evidence, too_few_steps, too_few_members, repeated_step,
  repeated_member, window_not_positive,
}
use rootcause.Dsl.Validate.Clean.{
  IsClean, NoRepeat, IsClean-both, IsClean-append_iff, IsClean-nil, unless_iff, when_iff,
  contains_iff, ↔_trans,
}
use rootcause.Dsl.Validate.Evidence.{is_required_decl}
use rootcause.Dsl.Validate.References.{
  check_bool_expr, check_exprs, references_of, warn_unreferenced, validate_constraint, check_listed,
  check_window, validate_sequence, validate_same_call,
}

-- Every name in the expression is one of these.
abbrev mutual
  pub AllNamed : List String → BoolExpr → Type 0
  AllNamed names (evidence_ref name) = Member name.value names
  AllNamed names (and_expr items span) = ExprsNamed names items
  AllNamed names (or_expr items span) = ExprsNamed names items
  AllNamed names (not_expr inner span) = AllNamed names inner

  pub ExprsNamed : List String → Exprs → Type 0
  ExprsNamed names stop = Unit
  ExprsNamed names (item e es) = AllNamed names e × ExprsNamed names es

abbrev pub name_of : SpannedString → String
name_of s = s.value

abbrev pub IsNamed : List String → SpannedString → Type 0
IsNamed names s = Member s.value names

-- At least two of them, none twice, all declared.
pub record ListIsValid (names : List String) (ss : List SpannedString) : Type 0 where
  pub enough : 2 ≤ length ss
  pub once : NoRepeat [] (map name_of ss)
  pub named : All (IsNamed names) ss

abbrev pub WindowIsValid : Option SpannedInt → Type 0
WindowIsValid none = Unit
WindowIsValid (some w) = leb_int w.value (pos 0) ≡ false

abbrev pub ConstraintIsValid : List String → Option BoolExpr → Type 0
ConstraintIsValid names none = Unit
ConstraintIsValid names (some e) = AllNamed names e

abbrev pub SequenceIsValid : List String → Option SequenceConstraint → Type 0
SequenceIsValid names none = Unit
SequenceIsValid names (some s) = ListIsValid names s.steps × WindowIsValid s.within_seconds

abbrev pub SameCallIsValid : List String → Option SameCallConstraint → Type 0
SameCallIsValid names none = Unit
SameCallIsValid names (some s) = ListIsValid names s.members

mutual
  unfolding check_bool_expr

  expr_iff :
      (e : BoolExpr) (names : List String) → IsClean (check_bool_expr e names) ↔ AllNamed names e
  expr_iff (evidence_ref name) names =
      ↔_trans (unless_iff (contains names name.value) name.span (unknown_evidence name.value))
        (contains_iff names name.value)
  expr_iff (and_expr items span) names = exprs_iff items names
  expr_iff (or_expr items span) names = exprs_iff items names
  expr_iff (not_expr inner span) names = expr_iff inner names

  exprs_iff :
      (es : Exprs) (names : List String) → IsClean (check_exprs es names) ↔ ExprsNamed names es
  exprs_iff stop names = (λ h. tt, λ h. IsClean-nil)
  exprs_iff (item e es) names =
      IsClean-both (check_bool_expr e names) (check_exprs es names) (expr_iff e names)
        (exprs_iff es names)

-- Warnings are no errors.
warnings-IsClean :
    (decls : List EvidenceDecl) (referenced : List String)
    → IsClean (warn_unreferenced decls referenced)
unfolding warn_unreferenced has_errors
warnings-IsClean [] referenced = refl
warnings-IsClean (d ∷ decls) referenced =
    elim (Bool-cases (is_required_decl d && not (contains referenced d.name.value))) [
      | inl left_out ↦ rw (left_out, warn_unreferenced) (warnings-IsClean decls referenced)
      | inr used ↦ rw (used, warn_unreferenced) (warnings-IsClean decls referenced)
    ]

constraint_iff :
    (p : PatternAst) (names : List String)
    → IsClean (validate_constraint p names) ↔ ConstraintIsValid names p.constraint
unfolding validate_constraint
constraint_iff p names = elim (Option-cases p.constraint) [
  | inl absent ↦ rw (absent, validate_constraint) (λ h. tt, λ h. IsClean-nil)
  | inr (e, there) ↦
      let warned = warnings-IsClean p.evidence (references_of e names) in
      let (split, join) =
        IsClean-append_iff (check_bool_expr e names)
          (warn_unreferenced p.evidence (references_of e names)) in
      let (sound, complete) = expr_iff e names in
      rw (there, validate_constraint) (λ h. sound (split h).0, λ v. join (complete v, warned))
]

listed_iff :
    (repeated : String → Problem) (names seen : List String) (ss : List SpannedString)
    → IsClean (check_listed repeated names seen ss)
      ↔ (NoRepeat seen (map name_of ss) × All (IsNamed names) ss)
unfolding check_listed
listed_iff repeated names seen [] = (λ h. (tt, tt), λ h. IsClean-nil)
listed_iff repeated names seen (s ∷ ss) =
    let (sound, complete) =
      IsClean-both (if contains names s.value then [] else _) _
        (↔_trans (unless_iff (contains names s.value) s.span (unknown_evidence s.value))
          (contains_iff names s.value))
        (IsClean-both (if contains seen s.value then _ else []) _
          (when_iff (contains seen s.value) s.span (repeated s.value))
          (listed_iff repeated names (s.value ∷ seen) ss)) in
    (
      λ h. let (named, (fresh, (once, rest))) = sound h in ((fresh, once), (named, rest)),
      λ ((fresh, once), (named, rest)). complete (named, (fresh, (once, rest))),
    )

enough_iff : (n : ℕ) → (ltb n 2 ≡ false) ↔ (2 ≤ n)
enough_iff n = ground arith

window_iff : (w : Option SpannedInt) → IsClean (check_window w) ↔ WindowIsValid w
unfolding check_window
window_iff none = (λ h. tt, λ h. IsClean-nil)
window_iff (some w) = when_iff (leb_int w.value (pos 0)) w.span window_not_positive

sequence_iff :
    (p : PatternAst) (names : List String)
    → IsClean (validate_sequence p names) ↔ SequenceIsValid names p.sequence
unfolding validate_sequence
sequence_iff p names = elim (Option-cases p.sequence) [
  | inl absent ↦ rw (absent, validate_sequence) (λ h. tt, λ h. IsClean-nil)
  | inr (s, there) ↦
      let few =
        ↔_trans (when_iff (ltb (length s.steps) 2) s.span too_few_steps)
          (enough_iff (length s.steps)) in
      let (sound, complete) = IsClean-both (if ltb (length s.steps) 2 then _ else []) _ few (
        IsClean-both (check_listed repeated_step names [] s.steps) (check_window s.within_seconds)
          (listed_iff repeated_step names [] s.steps) (window_iff s.within_seconds)) in
      rw (there, validate_sequence)
        (
          λ h.
              let (enough, ((once, named), window)) = sound h in
              (record { enough = enough; once = once; named = named }, window),
          λ (v, window). complete (v.enough, ((v.once, v.named), window)),
        )
]

same_call_iff :
    (p : PatternAst) (names : List String)
    → IsClean (validate_same_call p names) ↔ SameCallIsValid names p.same_call
unfolding validate_same_call
same_call_iff p names = elim (Option-cases p.same_call) [
  | inl absent ↦ rw (absent, validate_same_call) (λ h. tt, λ h. IsClean-nil)
  | inr (s, there) ↦
      let few =
        ↔_trans (when_iff (ltb (length s.members) 2) s.span too_few_members)
          (enough_iff (length s.members)) in
      let (sound, complete) =
        IsClean-both (if ltb (length s.members) 2 then _ else []) _ few
          (listed_iff repeated_member names [] s.members) in
      rw (there, validate_same_call)
        (
          λ h.
              let (enough, (once, named)) = sound h in
              record { enough = enough; once = once; named = named },
          λ v. complete (v.enough, (v.once, v.named)),
        )
]

-- What the three checks accept, for declared names.
pub record ReferencesAreValid (p : PatternAst) (names : List String) : Type 0 where
  pub constraint : ConstraintIsValid names p.constraint
  pub sequence : SequenceIsValid names p.sequence
  pub same_call : SameCallIsValid names p.same_call

-- The three checks report no error exactly if every reference is declared, and the sequence and the
-- same-call group have two entries or more and repeat none, and the window is positive.
pub references_iff :
    (p : PatternAst) (names : List String)
    → IsClean
        (validate_constraint p names ++ (validate_sequence p names ++ validate_same_call p names))
      ↔ ReferencesAreValid p names
references_iff p names =
    let (sound, complete) = IsClean-both (validate_constraint p names) _ (constraint_iff p names) (
      IsClean-both (validate_sequence p names) (validate_same_call p names) (sequence_iff p names)
        (same_call_iff p names)) in
    (
      λ h. let (c, (s, g)) = sound h in record { constraint = c; sequence = s; same_call = g },
      λ v. complete (v.constraint, (v.sequence, v.same_call)),
    )
