-- ===== src/Matcher/Constraint.antt =====
-- crates/matcher/src/constraint.rs: a constraint tree over the presence of evidence.
pub mod Polarity
use rootcause.Prelude.{Bool, true, false, not, ◌&&◌, ◌||◌, List, [], ◌∷◌, ◌++◌}
use rootcause.Dsl.Ir.{
  EvidenceRef, CompiledConstraint, Items, evidence, and_of, or_of, not_of, nil, cons,
}

unfoldable mutual
  pub holds : CompiledConstraint → (EvidenceRef → Bool) → Bool
  holds (evidence e) has_match = has_match e
  holds (and_of items) has_match = all_hold items has_match
  holds (or_of items) has_match = any_holds items has_match
  holds (not_of c) has_match = not (holds c has_match)

  pub all_hold : Items → (EvidenceRef → Bool) → Bool
  all_hold nil has_match = true
  all_hold (cons c cs) has_match = holds c has_match && all_hold cs has_match

  pub any_holds : Items → (EvidenceRef → Bool) → Bool
  any_holds nil has_match = false
  any_holds (cons c cs) has_match = holds c has_match || any_holds cs has_match

-- `out` is the vector that the source pushes onto.
unfoldable mutual
  pub collect_positive_leaves : CompiledConstraint → Bool → List EvidenceRef → List EvidenceRef
  collect_positive_leaves (evidence e) true out = out ++ e ∷ []
  collect_positive_leaves (evidence e) false out = out
  collect_positive_leaves (and_of items) positive out = collect_items items positive out
  collect_positive_leaves (or_of items) positive out = collect_items items positive out
  collect_positive_leaves (not_of c) positive out = collect_positive_leaves c (not positive) out

  pub collect_items : Items → Bool → List EvidenceRef → List EvidenceRef
  collect_items nil positive out = out
  collect_items (cons c cs) positive out =
      collect_items cs positive (collect_positive_leaves c positive out)

unfoldable pub positive_leaves : CompiledConstraint → List EvidenceRef
unfolding collect_positive_leaves
positive_leaves c = collect_positive_leaves c true []
