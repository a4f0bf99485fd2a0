-- ===== src/Matcher/Constraint/Polarity.antt =====
-- How the value of a constraint depends on the evidence under it: upwards on positive leaves,
-- downwards on negated ones, and on nothing else.
use rootcause.Prelude.{
  Bool, true, false, not, ◌&&◌, ◌||◌, List, [], ◌≡◌, refl, arith, inl, inr, ◌⊎◌, Member,
  Member-snoc, snoc-Member, ◌↔◌,
}
use rootcause.Dsl.Ir.{
  EvidenceRef, CompiledConstraint, Items, evidence, and_of, or_of, not_of, nil, cons,
}
use rootcause.Matcher.Constraint.{
  holds, all_hold, any_holds, collect_positive_leaves, collect_items, positive_leaves,
}

-- The leaves under an even (`true`) or odd (`false`) number of negations.
abbrev mutual
  pub Occurs : EvidenceRef → Bool → CompiledConstraint → Type 0
  Occurs e true (evidence d) = e ≡ d
  Occurs e false (evidence d) = ⊥
  Occurs e p (and_of items) = OccursIn e p items
  Occurs e p (or_of items) = OccursIn e p items
  Occurs e p (not_of c) = Occurs e (not p) c

  pub OccursIn : EvidenceRef → Bool → Items → Type 0
  OccursIn e p nil = ⊥
  OccursIn e p (cons c cs) = Occurs e p c ⊎ OccursIn e p cs

-- `g` has all the evidence of `f` at the leaves of one sign.
abbrev pub Grows : (EvidenceRef → Bool) → (EvidenceRef → Bool) → Bool → CompiledConstraint → Type 0
Grows f g p c = (e : EvidenceRef) → Occurs e p c → f e ≡ true → g e ≡ true

abbrev GrowsIn : (EvidenceRef → Bool) → (EvidenceRef → Bool) → Bool → Items → Type 0
GrowsIn f g p cs = (e : EvidenceRef) → OccursIn e p cs → f e ≡ true → g e ≡ true

not_mono : (a b : Bool) → (b ≡ true → a ≡ true) → not a ≡ true → not b ≡ true
not_mono a b h k = ground arith

&&_mono :
    (a b c d : Bool)
    → (a ≡ true → c ≡ true)
    → (b ≡ true → d ≡ true)
    → (a && b) ≡ true
    → (c && d) ≡ true
&&_mono a b c d h k both = ground arith

||_mono :
    (a b c d : Bool)
    → (a ≡ true → c ≡ true)
    → (b ≡ true → d ≡ true)
    → (a || b) ≡ true
    → (c || d) ≡ true
||_mono a b c d h k either = ground arith

mutual
  unfolding holds

  mono :
      (c : CompiledConstraint) (f g : EvidenceRef → Bool)
      → Grows f g true c
      → Grows g f false c
      → holds c f ≡ true
      → holds c g ≡ true
  mono (evidence d) f g up down = up d refl
  mono (and_of items) f g up down = mono_all items f g up down
  mono (or_of items) f g up down = mono_any items f g up down
  mono (not_of c) f g up down = not_mono (holds c f) (holds c g) (mono c g f down up)

  mono_all :
      (cs : Items) (f g : EvidenceRef → Bool)
      → GrowsIn f g true cs
      → GrowsIn g f false cs
      → all_hold cs f ≡ true
      → all_hold cs g ≡ true
  mono_all nil f g up down = λ h. h
  mono_all (cons c cs) f g up down =
      &&_mono (holds c f) (all_hold cs f) (holds c g) (all_hold cs g)
        (mono c f g (λ e o. up e (inl o)) (λ e o. down e (inl o)))
        (mono_all cs f g (λ e o. up e (inr o)) (λ e o. down e (inr o)))

  mono_any :
      (cs : Items) (f g : EvidenceRef → Bool)
      → GrowsIn f g true cs
      → GrowsIn g f false cs
      → any_holds cs f ≡ true
      → any_holds cs g ≡ true
  mono_any nil f g up down = λ h. h
  mono_any (cons c cs) f g up down =
      ||_mono (holds c f) (any_holds cs f) (holds c g) (any_holds cs g)
        (mono c f g (λ e o. up e (inl o)) (λ e o. down e (inl o)))
        (mono_any cs f g (λ e o. up e (inr o)) (λ e o. down e (inr o)))

-- If a constraint holds, it still holds with more evidence at its positive leaves and less at its
-- negated ones, whatever the other clauses do.
pub holds_monotone :
    (c : CompiledConstraint) (f g : EvidenceRef → Bool)
    → Grows f g true c
    → Grows g f false c
    → holds c f ≡ true
    → holds c g ≡ true
holds_monotone c f g up down h = mono c f g up down h

mutual
  unfolding collect_positive_leaves

  collect_sound :
      (c : CompiledConstraint) (p : Bool) (out : List EvidenceRef) (e : EvidenceRef)
      → Member e (collect_positive_leaves c p out)
      → Member e out ⊎ Occurs e p c
  collect_sound (evidence d) true out e m = Member-snoc out d e m
  collect_sound (evidence d) false out e m = inl m
  collect_sound (and_of items) true out e m = collect_items_sound items true out e m
  collect_sound (and_of items) false out e m = collect_items_sound items false out e m
  collect_sound (or_of items) true out e m = collect_items_sound items true out e m
  collect_sound (or_of items) false out e m = collect_items_sound items false out e m
  collect_sound (not_of c) true out e m = collect_sound c false out e m
  collect_sound (not_of c) false out e m = collect_sound c true out e m

  collect_items_sound :
      (cs : Items) (p : Bool) (out : List EvidenceRef) (e : EvidenceRef)
      → Member e (collect_items cs p out)
      → Member e out ⊎ OccursIn e p cs
  collect_items_sound nil p out e m = inl m
  collect_items_sound (cons c cs) p out e m =
      elim (collect_items_sound cs p (collect_positive_leaves c p out) e m) [
        | inr o ↦ inr (inr o)
        | inl there ↦ elim (collect_sound c p out e there) [
          | inl old ↦ inl old
          | inr o ↦ inr (inl o)
        ]
      ]

mutual
  unfolding collect_positive_leaves

  collect_complete :
      (c : CompiledConstraint) (p : Bool) (out : List EvidenceRef) (e : EvidenceRef)
      → Member e out ⊎ Occurs e p c
      → Member e (collect_positive_leaves c p out)
  collect_complete (evidence d) true out e m = snoc-Member out d e m
  collect_complete (evidence d) false out e (inl m) = m
  collect_complete (evidence d) false out e (inr o) = elim o [ ]
  collect_complete (and_of items) true out e m = collect_items_complete items true out e m
  collect_complete (and_of items) false out e m = collect_items_complete items false out e m
  collect_complete (or_of items) true out e m = collect_items_complete items true out e m
  collect_complete (or_of items) false out e m = collect_items_complete items false out e m
  collect_complete (not_of c) true out e m = collect_complete c false out e m
  collect_complete (not_of c) false out e m = collect_complete c true out e m

  collect_items_complete :
      (cs : Items) (p : Bool) (out : List EvidenceRef) (e : EvidenceRef)
      → Member e out ⊎ OccursIn e p cs
      → Member e (collect_items cs p out)
  collect_items_complete nil p out e (inl m) = m
  collect_items_complete nil p out e (inr o) = elim o [ ]
  collect_items_complete (cons c cs) p out e (inl m) =
      collect_items_complete cs p _ e (inl (collect_complete c p out e (inl m)))
  collect_items_complete (cons c cs) p out e (inr (inl o)) =
      collect_items_complete cs p _ e (inl (collect_complete c p out e (inr o)))
  collect_items_complete (cons c cs) p out e (inr (inr o)) = collect_items_complete cs p _ e (inr o)

-- The collected leaves are exactly those under an even number of negations.
pub positive_leaves_iff :
    (c : CompiledConstraint) (e : EvidenceRef) → Member e (positive_leaves c) ↔ Occurs e true c
unfolding positive_leaves
positive_leaves_iff c e = (
  λ m. elim (collect_sound c true [] e m) [ inl none_yet ↦ absurd none_yet | inr o ↦ o ],
  λ o. collect_complete c true [] e (inr o),
)
