-- ===== src/Matcher/Engine/Bounds.antt =====
-- The bounds check accepts exactly the patterns whose references are in range.
use rootcause.Prelude.{
  ℕ, ◌<◌, ◌≡◌, refl, ◌↔◌, inl, inr, Bool, true, false, List, ok, ◌>>◌, >>-eq-ok, >>-ok, ◌∙◌,
  try_for_each, try_for_each_sound, try_for_each_complete, All, length, lt→ltb, arith,
}
use rootcause.Facts.Trace.{Trace}
use rootcause.Dsl.Ir.{
  EvidenceRef, CompiledConstraint, Items, evidence, and_of, or_of, not_of, nil, cons,
  CompiledPattern,
}
use rootcause.Matcher.Binding.{CandidateMatch}
use rootcause.Matcher.Constraint.Polarity.{Occurs, OccursIn}
use rootcause.Matcher.Index.{TraceIndex}
use rootcause.Matcher.Engine.{
  check, check_constraint_refs, check_items, steps_of, members_of, check_in_bounds, find_candidates,
}

-- Every reference of the pattern names one of its evidence clauses.
pub record InBounds (p : CompiledPattern) : Type 0 where
  pub leaves : (e : EvidenceRef) (s : Bool) → Occurs e s p.constraint → e < length p.evidence
  pub steps : All (λ (r : EvidenceRef). r < length p.evidence) (steps_of p.sequence)
  pub members : All (λ (r : EvidenceRef). r < length p.evidence) (members_of p.same_call)

module _ (p : CompiledPattern) where
  check-lt : (r : EvidenceRef) → check p r ≡ ok tt → r < length p.evidence
  unfolding check
  check-lt r h = ground arith

  lt-check : (r : EvidenceRef) → r < length p.evidence → check p r ≡ ok tt
  unfolding check
  lt-check r h = rw (check, lt→ltb r (length p.evidence) h)

-- From each of the two signs to any sign.
by_sign :
    (P : EvidenceRef → Bool → Type 0) {n : ℕ}
    → ((e : EvidenceRef) → P e true → e < n)
    → ((e : EvidenceRef) → P e false → e < n)
    → (e : EvidenceRef) (s : Bool) → P e s
    → e < n
by_sign P up down e true = up e
by_sign P up down e false = down e

mutual
  unfolding check_constraint_refs

  refs_below :
      (c : CompiledConstraint) (p : CompiledPattern)
      → check_constraint_refs c p ≡ ok tt
      → (e : EvidenceRef) (s : Bool) → Occurs e s c
      → e < length p.evidence
  refs_below (evidence r) p h e true o = rw o (check-lt p r h)
  refs_below (evidence r) p h e false o = absurd o
  refs_below (and_of items) p h e true o = items_below items p h e true o
  refs_below (and_of items) p h e false o = items_below items p h e false o
  refs_below (or_of items) p h e true o = items_below items p h e true o
  refs_below (or_of items) p h e false o = items_below items p h e false o
  refs_below (not_of c) p h e true o = refs_below c p h e false o
  refs_below (not_of c) p h e false o = refs_below c p h e true o

  items_below :
      (cs : Items) (p : CompiledPattern)
      → check_items cs p ≡ ok tt
      → (e : EvidenceRef) (s : Bool) → OccursIn e s cs
      → e < length p.evidence
  items_below nil p h e s o = absurd o
  items_below (cons c cs) p h e s (inl o) =
      refs_below c p (>>-eq-ok (check_constraint_refs c p) (check_items cs p) h).1 e s o
  items_below (cons c cs) p h e s (inr o) =
      items_below cs p (>>-eq-ok (check_constraint_refs c p) (check_items cs p) h).2 e s o

mutual
  unfolding check_constraint_refs

  below_refs :
      (c : CompiledConstraint) (p : CompiledPattern)
      → ((e : EvidenceRef) (s : Bool) → Occurs e s c → e < length p.evidence)
      → check_constraint_refs c p ≡ ok tt
  below_refs (evidence r) p h = lt-check p r (h r true refl)
  below_refs (and_of items) p h =
      below_items items p (by_sign (λ e s. OccursIn e s items) (λ e. h e true) (λ e. h e false))
  below_refs (or_of items) p h =
      below_items items p (by_sign (λ e s. OccursIn e s items) (λ e. h e true) (λ e. h e false))
  below_refs (not_of c) p h =
      below_refs c p (by_sign (λ e s. Occurs e s c) (λ e. h e false) (λ e. h e true))

  below_items :
      (cs : Items) (p : CompiledPattern)
      → ((e : EvidenceRef) (s : Bool) → OccursIn e s cs → e < length p.evidence)
      → check_items cs p ≡ ok tt
  below_items nil p h = refl
  below_items (cons c cs) p h =
      >>-ok (check_constraint_refs c p) (check_items cs p) (below_refs c p (λ e s o. h e s (inl o)))
      ∙ below_items cs p (λ e s o. h e s (inr o))

-- The check passes exactly when every leaf of the constraint, of either sign, every step and every
-- member is in range.
check_in_bounds_iff : (p : CompiledPattern) → (check_in_bounds p ≡ ok tt) ↔ InBounds p
unfolding check_in_bounds
check_in_bounds_iff p =
    let rest =
      try_for_each (check p) (steps_of p.sequence)
      >> try_for_each (check p) (members_of p.same_call) in
    (
      λ h.
          let (_, refs, h₁) = >>-eq-ok (check_constraint_refs p.constraint p) rest h in
          let (_, steps, members) = >>-eq-ok (try_for_each (check p) (steps_of p.sequence)) _ h₁ in
          record {
            leaves = refs_below p.constraint p refs;
            steps = try_for_each_sound _ (check p) (steps_of p.sequence) (check-lt p) steps;
            members = try_for_each_sound _ (check p) (members_of p.same_call) (check-lt p) members;
          },
      λ b.
          >>-ok (check_constraint_refs p.constraint p) rest (below_refs p.constraint p b.leaves)
          ∙ >>-ok (try_for_each (check p) (steps_of p.sequence)) _
              (try_for_each_complete _ (check p) (steps_of p.sequence) (lt-check p) b.steps)
          ∙ try_for_each_complete _ (check p) (members_of p.same_call) (lt-check p) b.members,
    )

-- `find_candidates` returns candidates exactly for the patterns whose references are all in range;
-- for every other pattern it returns an error.
pub find_candidates-ok_iff :
    (t : Trace) (index : TraceIndex) (p : CompiledPattern)
    → ((cs : List CandidateMatch) × (find_candidates t index p ≡ ok cs)) ↔ InBounds p
unfolding find_candidates
find_candidates-ok_iff t index p = (
  λ found. (check_in_bounds_iff p).0 (>>-eq-ok (check_in_bounds p) _ found.1).1,
  λ b. (_, >>-ok (check_in_bounds p) _ ((check_in_bounds_iff p).1 b)),
)
