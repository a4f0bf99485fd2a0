-- ===== src/Grounding/Polarity/Signs.antt =====
-- What `analyze` finds out: with which signs a clause occurs in the constraint.
use rootcause.Prelude.{
  ◌≡◌, refl, sym, ap, ◌↔◌, ◌⊎◌, inl, inr, Bool, true, false, not, none, some, List, [], ◌∷◌, ◌++◌,
  ok, err, ◌==◌, nat_Eq, insert, contains, find, Member, Member-insert_self, Member-insert_old,
  Member-insert_inv, Member→contains, contains→Member, Member-map, Bool-cases, Option-cases,
  nat_eq_iff,
}
use rootcause.Prelude.Sort.{sort_by_key, sort_by_key-Member}
use rootcause.Dsl.Ir.{
  EvidenceRef, CompiledConstraint, Items, evidence, and_of, or_of, not_of, nil, cons,
}
use rootcause.Matcher.Constraint.Polarity.{Occurs, OccursIn}
use rootcause.Grounding.Status.{Polarity, positive, negative, unreferenced}
use rootcause.Grounding.Polarity.{Sets, walk, walk_items, signed, analyze, polarity_of}

module _ {A : Type 0} (p : A → Bool) where
  find_sound : (xs : List A) (a : A) → find p xs ≡ some a → Member a xs × (p a ≡ true)
  find_sound [] a h = absurd (cc)
  find_sound (x ∷ xs) a h = elim (Bool-cases (p x)) [
    | inl here ↦
        let same : x ≡ a = (let found = rw here at h in cc) in (inl (sym same), rw (← same) here)
    | inr other ↦ let (mem, holds) = find_sound xs a (rw other at h) in (inr mem, holds)
  ]

  find-none : (xs : List A) (a : A) → find p xs ≡ none → Member a xs → p a ≡ false
  find-none [] a h mem = absurd mem
  find-none (x ∷ xs) a h mem = elim (Bool-cases (p x)) [
    | inl here ↦ absurd (let stuck = rw here at h in cc)
    | inr other ↦ elim mem [ inl e ↦ rw e other | inr rest ↦ find-none xs a (rw other at h) rest ]
  ]

insert_iff :
    (e d : EvidenceRef) (xs : List EvidenceRef) → Member e (insert d xs) ↔ (Member e xs ⊎ (e ≡ d))
insert_iff e d xs = (
  λ m. elim (Member-insert_inv d e xs m) [ inl p ↦ inr p | inr old ↦ inl old ],
  λ m. elim m [ inl old ↦ Member-insert_old d e xs old | inr p ↦ rw p (Member-insert_self d xs) ],
)

⊎-⊥_iff : {A : Type 0} → A ↔ (A ⊎ ⊥)
⊎-⊥_iff = (λ a. inl a, λ m. elim m [ inl a ↦ a | inr none_left ↦ absurd none_left ])

⊎-iff_trans : {A B C P Q : Type 0} → (C ↔ (B ⊎ Q)) → (B ↔ (A ⊎ P)) → C ↔ (A ⊎ (P ⊎ Q))
⊎-iff_trans (cb, bc) (ba, ab) = (
  λ c. elim (cb c) [
    | inr q ↦ inr (inr q)
    | inl b ↦ elim (ba b) [ inl a ↦ inl a | inr p ↦ inr (inl p) ]
  ],
  λ m. elim m [
    | inl a ↦ bc (inl (ab (inl a)))
    | inr later ↦ elim later [ inl p ↦ bc (inl (ab (inr p))) | inr q ↦ bc (inr q) ]
  ],
)

-- The sets before and after a walk.
abbrev Walked : EvidenceRef → Sets → Sets → Type 0 → Type 0 → Type 0
Walked e s r pos neg =
    (Member e r.pos_set ↔ (Member e s.pos_set ⊎ pos))
    × (Member e r.neg_set ↔ (Member e s.neg_set ⊎ neg))

mutual
  unfolding walk walk_items

  walk-Walked :
      (e : EvidenceRef) (c : CompiledConstraint) (sign : Bool) (s : Sets)
      → Walked e s (walk c sign s) (Occurs e sign c) (Occurs e (not sign) c)
  walk-Walked e (evidence d) true s = (insert_iff e d s.pos_set, ⊎-⊥_iff)
  walk-Walked e (evidence d) false s = (⊎-⊥_iff, insert_iff e d s.neg_set)
  walk-Walked e (and_of items) sign s = walk_items-Walked e items sign s
  walk-Walked e (or_of items) sign s = walk_items-Walked e items sign s
  walk-Walked e (not_of c) sign s = walk-Walked e c (not sign) s

  walk_items-Walked :
      (e : EvidenceRef) (cs : Items) (sign : Bool) (s : Sets)
      → Walked e s (walk_items cs sign s) (OccursIn e sign cs) (OccursIn e (not sign) cs)
  walk_items-Walked e nil sign s = (⊎-⊥_iff, ⊎-⊥_iff)
  walk_items-Walked e (cons c cs) sign s =
      let (pos, neg) = walk-Walked e c sign s in
      let (pos_rest, neg_rest) = walk_items-Walked e cs sign (walk c sign s) in
      (⊎-iff_trans pos_rest pos, ⊎-iff_trans neg_rest neg)

abbrev no_sets : Sets
no_sets = record { pos_set = []; neg_set = [] }

abbrev sets_of : CompiledConstraint → Sets
sets_of c = walk c true no_sets

sets_of-Occurs :
    (c : CompiledConstraint) (e : EvidenceRef)
    → (Member e (sets_of c).pos_set ↔ Occurs e true c)
      × (Member e (sets_of c).neg_set ↔ Occurs e false c)
sets_of-Occurs c e =
    let (pos, neg) = walk-Walked e c true no_sets in
    (
      (λ m. elim (pos.0 m) [ inl old ↦ absurd old | inr occurs ↦ occurs ], λ o. pos.1 (inr o)),
      (λ m. elim (neg.0 m) [ inl old ↦ absurd old | inr occurs ↦ occurs ], λ o. neg.1 (inr o)),
    )

abbrev sorted_signs : Sets → List (EvidenceRef × Polarity)
sorted_signs s =
    sort_by_key (λ (q : EvidenceRef × Polarity). q.0)
      (signed positive s.pos_set ++ signed negative s.neg_set)

analyze-ok :
    (c : CompiledConstraint) (analyzed : List (EvidenceRef × Polarity))
    → analyze c ≡ ok analyzed
    → (find (λ e. contains (sets_of c).neg_set e) (sets_of c).pos_set ≡ none)
      × (analyzed ≡ sorted_signs (sets_of c))
unfolding analyze
analyze-ok c analyzed h =
    elim (Option-cases (find (λ e. contains (sets_of c).neg_set e) (sets_of c).pos_set)) [
      | inr (e, both) ↦ absurd (let stuck = rw (both, analyze) at h in cc)
      | inl apart ↦ (apart, (let done = rw (apart, analyze) at h in cc))
    ]

Member-append :
    {A : Type 0} (xs ys : List A) (a : A) → Member a (xs ++ ys) ↔ (Member a xs ⊎ Member a ys)
Member-append [] ys a =
    (λ m. inr m, λ m. elim m [ inl none_there ↦ absurd none_there | inr later ↦ later ])
Member-append (x ∷ xs) ys a =
    let (into, out) = Member-append xs ys a in
    (
      λ m. elim m [
        | inl e ↦ inl (inl e)
        | inr rest ↦ elim (into rest) [ inl l ↦ inl (inr l) | inr r ↦ inr r ]
      ],
      λ m. elim m [
        | inl l ↦ elim l [ inl e ↦ inl e | inr old ↦ inr (out (inl old)) ]
        | inr r ↦ inr (out (inr r))
      ],
    )

Member-signed :
    (p : Polarity) (xs : List EvidenceRef) (e : EvidenceRef)
    → Member e xs
    → Member (e, p) (signed p xs)
Member-signed p [] e m = m
Member-signed p (x ∷ xs) e (inl same) = inl (ap (λ d. (d, p)) same)
Member-signed p (x ∷ xs) e (inr m) = inr (Member-signed p xs e m)

-- An entry of the analysis is a clause with a sign under which it occurs.
Signed : CompiledConstraint → EvidenceRef × Polarity → Type 0
Signed c q = ((q.1 ≡ positive) × Occurs q.0 true c) ⊎ ((q.1 ≡ negative) × Occurs q.0 false c)

sorted_signs-Signed :
    (c : CompiledConstraint) (q : EvidenceRef × Polarity)
    → Member q (sorted_signs (sets_of c)) ↔ Signed c q
unfolding Signed
sorted_signs-Signed c q =
    let pos = signed positive (sets_of c).pos_set in
    let neg = signed negative (sets_of c).neg_set in
    let (unsorted, sorted) =
      sort_by_key-Member (λ (q : EvidenceRef × Polarity). q.0) (pos ++ neg) q in
    let (split, join) = Member-append pos neg q in
    let (occurs_pos, occurs_neg) = sets_of-Occurs c q.0 in
    (
      λ m. elim (split (unsorted m)) [
        | inl l ↦
            let (d, mem, same) =
              Member-map (λ (e : EvidenceRef). (e, positive)) (sets_of c).pos_set q l in
            inl (
              ap (λ (q : EvidenceRef × Polarity). q.1) same,
              occurs_pos.0 (rw (ap (λ (q : EvidenceRef × Polarity). q.0) same) mem),
            )
        | inr r ↦
            let (d, mem, same) =
              Member-map (λ (e : EvidenceRef). (e, negative)) (sets_of c).neg_set q r in
            inr (
              ap (λ (q : EvidenceRef × Polarity). q.1) same,
              occurs_neg.0 (rw (ap (λ (q : EvidenceRef × Polarity). q.0) same) mem),
            )
      ],
      λ m. sorted (
          join (elim m [
            | inl (is_pos, o) ↦ inl (
                rw (ap {B = EvidenceRef × Polarity} (λ (p : Polarity). (q.0, p)) is_pos)
                  (Member-signed positive (sets_of c).pos_set q.0 (occurs_pos.1 o)))
            | inr (is_neg, o) ↦ inr (
                rw (ap {B = EvidenceRef × Polarity} (λ (p : Polarity). (q.0, p)) is_neg)
                  (Member-signed negative (sets_of c).neg_set q.0 (occurs_neg.1 o)))
          ])),
    )

analyze-apart :
    (c : CompiledConstraint) (analyzed : List (EvidenceRef × Polarity)) (e : EvidenceRef)
    → analyze c ≡ ok analyzed
    → ¬ (Occurs e true c × Occurs e false c)
analyze-apart c analyzed e h (o_pos, o_neg) =
    let (apart, _) = analyze-ok c analyzed h in
    let (occurs_pos, occurs_neg) = sets_of-Occurs c e in
    let out =
      find-none (λ e. contains (sets_of c).neg_set e) (sets_of c).pos_set e apart
        (occurs_pos.1 o_pos) in
    let there = Member→contains (sets_of c).neg_set e (occurs_neg.1 o_neg) in cc

polarity_of-cases :
    (c : CompiledConstraint) (analyzed : List (EvidenceRef × Polarity)) (e : EvidenceRef)
    → analyzed ≡ sorted_signs (sets_of c)
    → ((polarity_of analyzed e ≡ positive) × Occurs e true c)
      ⊎ ((polarity_of analyzed e ≡ negative) × Occurs e false c)
      ⊎ ((polarity_of analyzed e ≡ unreferenced) × ¬ Occurs e true c × ¬ Occurs e false c)
unfolding polarity_of Signed
polarity_of-cases c analyzed e same =
    let is_e = λ (q : EvidenceRef × Polarity). q.0 == e in
    let signs : (q : EvidenceRef × Polarity) → Member q analyzed ↔ Signed c q =
      λ q. rw same (sorted_signs-Signed c q) in
    elim (Option-cases (find is_e analyzed)) [
      | inr ((d, p), found) ↦
          let (mem, here) = find_sound is_e analyzed (d, p) found in
          let is_here : d ≡ e = (nat_eq_iff d e).0 here in
          elim ((signs (d, p)).0 mem) [
            | inl (is_pos, o) ↦ inl (rw (found, polarity_of) is_pos, rw (← is_here) o)
            | inr (is_neg, o) ↦ inr (inl (rw (found, polarity_of) is_neg, rw (← is_here) o))
          ]
      | inl absent ↦
          let never : (p : Polarity) → ¬ Signed c (e, p) = λ p there.
            let out = find-none is_e analyzed (e, p) absent ((signs (e, p)).1 there) in
            let here = (nat_eq_iff e e).1 refl in (cc) in
          inr (
            inr (
              rw (absent, polarity_of) refl,
              λ o. never positive (inl (refl, o)),
              λ o. never negative (inr (refl, o)),
            ))
    ]

-- A clause of a constraint that `analyze` accepts is positive exactly if it occurs under an even
-- number of negations, negative exactly if it occurs under an odd number, and never both.
pub polarity_of-analyze :
    (c : CompiledConstraint) (analyzed : List (EvidenceRef × Polarity)) (e : EvidenceRef)
    → analyze c ≡ ok analyzed
    → ((polarity_of analyzed e ≡ positive) ↔ Occurs e true c)
      × ((polarity_of analyzed e ≡ negative) ↔ Occurs e false c)
      × ¬ (Occurs e true c × Occurs e false c)
polarity_of-analyze c analyzed e h =
    let (_, same) = analyze-ok c analyzed h in
    let apart = analyze-apart c analyzed e h in
    elim (polarity_of-cases c analyzed e same) [
      | inl (is_pos, o) ↦
          ((λ p. o, λ o. is_pos), (λ p. absurd (cc), λ n. absurd (apart (o, n))), apart)
      | inr other ↦ elim other [
        | inl (is_neg, o) ↦
            ((λ p. absurd (cc), λ n. absurd (apart (n, o))), (λ p. o, λ o. is_neg), apart)
        | inr (is_free, no_pos, no_neg) ↦ (
          (λ p. absurd (cc), λ o. absurd (no_pos o)),
          (λ p. absurd (cc), λ o. absurd (no_neg o)),
          apart,
        )
      ]
    ]

-- `analyze` refuses a constraint with a clause only if that clause occurs in it with both signs.
pub analyze-err :
    (c : CompiledConstraint) (e : EvidenceRef)
    → analyze c ≡ err e
    → Occurs e true c × Occurs e false c
unfolding analyze
analyze-err c e h =
    let in_neg = λ (e : EvidenceRef). contains (sets_of c).neg_set e in
    elim (Option-cases (find in_neg (sets_of c).pos_set)) [
      | inl apart ↦ absurd (let stuck = rw (apart, analyze) at h in cc)
      | inr (d, both) ↦
          let same : d ≡ e = (let done = rw (both, analyze) at h in cc) in
          let (mem, negated) = find_sound in_neg (sets_of c).pos_set d both in
          let (occurs_pos, occurs_neg) = sets_of-Occurs c d in
          rw (← same)
            (occurs_pos.0 mem, occurs_neg.0 (contains→Member (sets_of c).neg_set d negated))
    ]
