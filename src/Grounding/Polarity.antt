-- ===== src/Grounding/Polarity.antt =====
-- crates/grounding/src/polarity.rs: the sign with which a constraint refers to each clause.
--
-- A hash set is a list with no repetition. Of several clauses with both signs the source reports
-- any one; here it is the first in the list.
pub mod Signs
use rootcause.Prelude.{
  ℕ, Bool, true, false, not, Option, none, some, List, [], ◌∷◌, ◌++◌, map, Result, ok, err, ◌==◌,
  nat_Eq, insert, contains, find, if◌then◌else◌,
}
use rootcause.Prelude.Sort.{sort_by_key}
use rootcause.Dsl.Ir.{
  EvidenceRef, CompiledConstraint, Items, evidence, and_of, or_of, not_of, nil, cons,
}
use rootcause.Grounding.Status.{Polarity, positive, negative, unreferenced}

-- The two sets that `walk` fills.
pub record Sets : Type 0 where
  pub pos_set : List EvidenceRef
  pub neg_set : List EvidenceRef

unfoldable mutual
  pub walk : CompiledConstraint → Bool → Sets → Sets
  walk (evidence e) true s = record s { pos_set = insert e s.pos_set }
  walk (evidence e) false s = record s { neg_set = insert e s.neg_set }
  walk (and_of items) sign s = walk_items items sign s
  walk (or_of items) sign s = walk_items items sign s
  walk (not_of c) sign s = walk c (not sign) s

  pub walk_items : Items → Bool → Sets → Sets
  walk_items nil sign s = s
  walk_items (cons c cs) sign s = walk_items cs sign (walk c sign s)

abbrev pub signed : Polarity → List EvidenceRef → List (EvidenceRef × Polarity)
signed p = map (λ e. (e, p))

unfoldable pub analyze : CompiledConstraint → Result EvidenceRef (List (EvidenceRef × Polarity))
unfolding walk
analyze c =
    let sets = walk c true (record { pos_set = []; neg_set = [] }) in
    elim (find (λ e. contains sets.neg_set e) sets.pos_set) [
      | some e ↦ err e
      | none ↦ ok (
          sort_by_key (λ (q : EvidenceRef × Polarity). q.0)
            (signed positive sets.pos_set ++ signed negative sets.neg_set))
    ]

unfoldable pub polarity_of : List (EvidenceRef × Polarity) → EvidenceRef → Polarity
polarity_of analyzed e = elim (find (λ (q : EvidenceRef × Polarity). q.0 == e) analyzed) [
  | none ↦ unreferenced
  | some (d, p) ↦ p
]
