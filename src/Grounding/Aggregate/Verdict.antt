-- ===== src/Grounding/Aggregate/Verdict.antt =====
-- When `aggregate_status` says grounded, ungrounded or abstain, and with which reasons.
use rootcause.Prelude.{
  ◌≡◌, refl, sym, ap, ◌∙◌, ◌↔◌, ◌⊎◌, inl, inr, Bool, true, false, ◌||◌, Option, none, some, List,
  [], ◌∷◌, any, Member, Bool-cases, Member-filter, filter-Member, if◌then◌else◌, arith,
}
use rootcause.Grounding.Status.{
  GroundingStatus, grounded, ungrounded, abstain, EvidenceOutcome, verified, failed, unavailable,
  unsupported, EvidenceVerification, is_required, sequence_unconfirmed, sequence_refuted,
  same_call_unconfirmed, same_call_refuted, Reason,
}
use rootcause.Grounding.Aggregate.{
  Tally, tally_entry, tally_entries, tally_relation, tally, no_tally, required_entries,
  aggregate_status,
}

abbrev pub is_unsettled : EvidenceOutcome → Bool
is_unsettled unavailable = true
is_unsettled unsupported = true
is_unsettled _ = false

abbrev pub is_failed : EvidenceOutcome → Bool
is_failed failed = true
is_failed _ = false

abbrev pub relation_is : (EvidenceOutcome → Bool) → Option EvidenceOutcome → Bool
relation_is p none = false
relation_is p (some o) = p o

abbrev unsettled_entry : EvidenceVerification → Bool
unsettled_entry e = is_unsettled e.outcome

abbrev failed_entry : EvidenceVerification → Bool
failed_entry e = is_failed e.outcome

tally_entry-flags :
    (s : Tally) (e : EvidenceVerification)
    → ((tally_entry s e).any_uncertain ≡ (s.any_uncertain || unsettled_entry e))
      × ((tally_entry s e).any_failed ≡ (s.any_failed || failed_entry e))
unfolding tally_entry
tally_entry-flags s e = ground arith

tally_relation-flags :
    (u c : Reason) (s : Tally) (r : Option EvidenceOutcome)
    → ((tally_relation u c s r).any_uncertain ≡ (s.any_uncertain || relation_is is_unsettled r))
      × ((tally_relation u c s r).any_failed ≡ (s.any_failed || relation_is is_failed r))
unfolding tally_relation
tally_relation-flags u c s none = ground arith
tally_relation-flags u c s (some verified) = ground arith
tally_relation-flags u c s (some failed) = ground arith
tally_relation-flags u c s (some unavailable) = ground arith
tally_relation-flags u c s (some unsupported) = ground arith

tally_entries-flags :
    (s : Tally) (es : List EvidenceVerification)
    → ((tally_entries s es).any_uncertain ≡ (s.any_uncertain || any unsettled_entry es))
      × ((tally_entries s es).any_failed ≡ (s.any_failed || any failed_entry es))
unfolding tally_entries
tally_entries-flags s [] = ground arith
tally_entries-flags s (e ∷ es) =
    let (uncertain, failing) = tally_entry-flags s e in
    let (more_uncertain, more_failing) = tally_entries-flags (tally_entry s e) es in ground arith

-- Some required entry, or some relation, has an outcome of this class.
abbrev some_outcome :
    (EvidenceOutcome → Bool)
    → List EvidenceVerification
    → Option EvidenceOutcome
    → Option EvidenceOutcome
    → Bool
some_outcome p chain q r =
    (any (λ (e : EvidenceVerification). p e.outcome) (required_entries chain) || relation_is p q)
    || relation_is p r

tally-flags :
    (chain : List EvidenceVerification) (q r : Option EvidenceOutcome)
    → ((tally chain q r).any_uncertain ≡ some_outcome is_unsettled chain q r)
      × ((tally chain q r).any_failed ≡ some_outcome is_failed chain q r)
unfolding tally
tally-flags chain q r =
    let entries = tally_entries no_tally (required_entries chain) in
    let (u0, f0) = tally_entries-flags no_tally (required_entries chain) in
    let (u1, f1) = tally_relation-flags sequence_unconfirmed sequence_refuted entries q in
    let (u2, f2) =
      tally_relation-flags same_call_unconfirmed same_call_refuted
        (tally_relation sequence_unconfirmed sequence_refuted entries q) r in
    (
      u2
          ∙ ap (λ b. b || relation_is is_unsettled r)
              (u1 ∙ ap (λ b. b || relation_is is_unsettled q) u0),
      f2 ∙ ap (λ b. b || relation_is is_failed r) (f1 ∙ ap (λ b. b || relation_is is_failed q) f0),
    )

status_of-flags :
    (chain : List EvidenceVerification) (q r : Option EvidenceOutcome)
    → (aggregate_status chain q r).0 ≡ (
        if some_outcome is_unsettled chain q r
        then abstain
        else if some_outcome is_failed chain q r
        then ungrounded
        else grounded)
unfolding aggregate_status
status_of-flags chain q r =
    let (uncertain, failing) = tally-flags chain q r in rw (uncertain, failing)

-- An outcome of a relation that does not stand in the way: no relation, or a confirmed one.
abbrev pub IsConfirmed : Option EvidenceOutcome → Type 0
IsConfirmed none = Unit
IsConfirmed (some o) = o ≡ verified

pub any_sound :
    {A : Type 0} (p : A → Bool) (xs : List A)
    → any p xs ≡ true
    → (a : A) × Member a xs × (p a ≡ true)
any_sound p [] h = absurd (cc)
any_sound p (x ∷ xs) h = elim (Bool-cases (p x)) [
  | inl here ↦ (x, inl refl, here)
  | inr other ↦ let (a, old, there) = any_sound p xs (rw other at h) in (a, inr old, there)
]

pub any_complete :
    {A : Type 0} (p : A → Bool) (xs : List A) (a : A) → Member a xs → p a ≡ true → any p xs ≡ true
any_complete p [] a m h = absurd m
any_complete p (x ∷ xs) a (inl e) h = let here : p x ≡ true = rw e at h in ground arith
any_complete p (x ∷ xs) a (inr m) h = let there = any_complete p xs a m h in ground arith

-- A required clause of the chain, or a relation, has an outcome of this class.
abbrev pub HasOutcome :
    (EvidenceOutcome → Bool)
    → List EvidenceVerification
    → Option EvidenceOutcome
    → Option EvidenceOutcome
    → Type 0
HasOutcome p chain q r =
    ((e : EvidenceVerification) × Member e chain
      × (is_required e.requiredness ≡ true)
      × (p e.outcome ≡ true))
    ⊎ (relation_is p q ≡ true)
    ⊎ (relation_is p r ≡ true)

some_outcome-HasOutcome :
    (p : EvidenceOutcome → Bool) (chain : List EvidenceVerification) (q r : Option EvidenceOutcome)
    → some_outcome p chain q r ≡ true
    → HasOutcome p chain q r
some_outcome-HasOutcome p chain q r h =
    elim (Bool-cases (any (λ (e : EvidenceVerification). p e.outcome) (required_entries chain))) [
      | inl entries ↦
          let (e, kept, there) =
            any_sound (λ (e : EvidenceVerification). p e.outcome) (required_entries chain)
              entries in
          let (old, needed) =
            Member-filter (λ (e : EvidenceVerification). is_required e.requiredness) chain e kept in
          inl (e, old, needed, there)
      | inr no_entry ↦ elim (Bool-cases (relation_is p q)) [
        | inl sequence ↦ inr (inl sequence)
        | inr no_sequence ↦ inr (inr (ground arith))
      ]
    ]

HasOutcome-some_outcome :
    (p : EvidenceOutcome → Bool) (chain : List EvidenceVerification) (q r : Option EvidenceOutcome)
    → HasOutcome p chain q r
    → some_outcome p chain q r ≡ true
HasOutcome-some_outcome p chain q r (inl (e, old, needed, there)) =
    let entries =
      any_complete (λ (e : EvidenceVerification). p e.outcome) (required_entries chain) e
        (filter-Member (λ (e : EvidenceVerification). is_required e.requiredness) chain e old
          needed)
        there in
    ground arith
HasOutcome-some_outcome p chain q r (inr (inl h)) = ground arith
HasOutcome-some_outcome p chain q r (inr (inr h)) = ground arith

abbrev verdict : Bool → Bool → GroundingStatus
verdict uncertain failing = if uncertain then abstain else if failing then ungrounded else grounded

verdict-abstain : (u f : Bool) → verdict u f ≡ abstain → u ≡ true
verdict-abstain true f h = refl
verdict-abstain false true h = cc
verdict-abstain false false h = cc

verdict-grounded : (u f : Bool) → verdict u f ≡ grounded → (u ≡ false) × (f ≡ false)
verdict-grounded true f h = cc
verdict-grounded false true h = cc
verdict-grounded false false h = (refl, refl)

verdict-ungrounded : (u f : Bool) → verdict u f ≡ ungrounded → (u ≡ false) × (f ≡ true)
verdict-ungrounded true f h = cc
verdict-ungrounded false true h = (refl, refl)
verdict-ungrounded false false h = cc

-- The verdict is `Abstain` exactly if some required clause, or the sequence, or the same-call
-- relation, came out unavailable or unsupported, whatever else failed.
pub aggregate_status-abstain_iff :
    (chain : List EvidenceVerification) (q r : Option EvidenceOutcome)
    → ((aggregate_status chain q r).0 ≡ abstain) ↔ HasOutcome is_unsettled chain q r
aggregate_status-abstain_iff chain q r = (
  λ h. some_outcome-HasOutcome is_unsettled chain q r (
      verdict-abstain (some_outcome is_unsettled chain q r) (some_outcome is_failed chain q r)
        (sym (status_of-flags chain q r) ∙ h)),
  λ h.
      status_of-flags chain q r
      ∙ ap (λ u. verdict u (some_outcome is_failed chain q r))
          (HasOutcome-some_outcome is_unsettled chain q r h),
)

-- The verdict is `Ungrounded` exactly if nothing required came out unavailable or unsupported, and
-- some required clause, or the sequence, or the same-call relation, failed.
pub aggregate_status-ungrounded_iff :
    (chain : List EvidenceVerification) (q r : Option EvidenceOutcome)
    → ((aggregate_status chain q r).0 ≡ ungrounded)
      ↔ (¬ HasOutcome is_unsettled chain q r × HasOutcome is_failed chain q r)
aggregate_status-ungrounded_iff chain q r = (
  λ h.
      let (u, f) =
        verdict-ungrounded (some_outcome is_unsettled chain q r) (some_outcome is_failed chain q r)
          (sym (status_of-flags chain q r) ∙ h) in
      (
        λ there.
            absurd (let positive_case = HasOutcome-some_outcome is_unsettled chain q r there in cc),
        some_outcome-HasOutcome is_failed chain q r f,
      ),
  λ (none_unsettled, failing). elim (Bool-cases (some_outcome is_unsettled chain q r)) [
    | inl u ↦ absurd (none_unsettled (some_outcome-HasOutcome is_unsettled chain q r u))
    | inr u ↦
        status_of-flags chain q r ∙ rw (u, HasOutcome-some_outcome is_failed chain q r failing)
  ],
)

outcome_verified :
    (o : EvidenceOutcome) → ¬ (is_unsettled o ≡ true) → ¬ (is_failed o ≡ true) → o ≡ verified
outcome_verified verified h k = refl
outcome_verified failed h k = absurd (k refl)
outcome_verified unavailable h k = absurd (h refl)
outcome_verified unsupported h k = absurd (h refl)

relation_verified :
    (r : Option EvidenceOutcome)
    → ¬ (relation_is is_unsettled r ≡ true)
    → ¬ (relation_is is_failed r ≡ true)
    → IsConfirmed r
relation_verified none h k = tt
relation_verified (some o) h k = outcome_verified o h k

-- No outcome of a class that excludes `Verified`, where everything required is verified.
all_verified :
    (p : EvidenceOutcome → Bool) (chain : List EvidenceVerification) (q r : Option EvidenceOutcome)
    → p verified ≡ false
    → ((e : EvidenceVerification)
        → Member e chain
        → is_required e.requiredness ≡ true
        → e.outcome ≡ verified)
    → IsConfirmed q
    → IsConfirmed r
    → ¬ HasOutcome p chain q r
all_verified p chain q r excluded entries sequence same_call (inl (e, mem, needed, there)) =
    let same = ap p (entries e mem needed) in cc
all_verified p chain none r excluded entries sequence same_call (inr (inl there)) = cc
all_verified p chain (some o) r excluded entries sequence same_call (inr (inl there)) =
    let same = ap p sequence in cc
all_verified p chain q none excluded entries sequence same_call (inr (inr there)) = cc
all_verified p chain q (some o) excluded entries sequence same_call (inr (inr there)) =
    let same = ap p same_call in cc

not_true : (b : Bool) → ¬ (b ≡ true) → b ≡ false
not_true b h = elim (Bool-cases b) [
  | inl positive_case ↦ absurd (h positive_case)
  | inr excluded ↦ excluded
]

-- The verdict is `Grounded` exactly if every required clause of the chain was verified, and so were
-- the sequence and the same-call relation, where the pattern has them.
pub aggregate_status-grounded_iff :
    (chain : List EvidenceVerification) (q r : Option EvidenceOutcome)
    → ((aggregate_status chain q r).0 ≡ grounded) ↔ (
        ((e : EvidenceVerification)
          → Member e chain
          → is_required e.requiredness ≡ true
          → e.outcome ≡ verified)
        × IsConfirmed q
        × IsConfirmed r)
aggregate_status-grounded_iff chain q r = (
  λ h.
      let (u, f) =
        verdict-grounded (some_outcome is_unsettled chain q r) (some_outcome is_failed chain q r)
          (sym (status_of-flags chain q r) ∙ h) in
      let never_u : ¬ HasOutcome is_unsettled chain q r =
        λ there. (let positive_case = HasOutcome-some_outcome is_unsettled chain q r there in cc) in
      let never_f : ¬ HasOutcome is_failed chain q r =
        λ there. (let positive_case = HasOutcome-some_outcome is_failed chain q r there in cc) in
      (
        λ e mem needed.
            outcome_verified e.outcome (λ y. never_u (inl (e, mem, needed, y)))
              (λ y. never_f (inl (e, mem, needed, y))),
        relation_verified q (λ y. never_u (inr (inl y))) (λ y. never_f (inr (inl y))),
        relation_verified r (λ y. never_u (inr (inr y))) (λ y. never_f (inr (inr y))),
      ),
  λ (entries, sequence, same_call).
      let u = not_true (some_outcome is_unsettled chain q r) (λ y.
        all_verified is_unsettled chain q r refl entries sequence same_call
          (some_outcome-HasOutcome is_unsettled chain q r y)) in
      let f = not_true (some_outcome is_failed chain q r) (λ y.
        all_verified is_failed chain q r refl entries sequence same_call
          (some_outcome-HasOutcome is_failed chain q r y)) in
      status_of-flags chain q r ∙ rw (u, f),
)
