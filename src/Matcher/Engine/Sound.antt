-- ===== src/Matcher/Engine/Sound.antt =====
-- What every candidate satisfies: the constraint over the whole trace, and facts that satisfy
-- their clauses.
use rootcause.Prelude.{
  ℕ, ◌≤◌, ◌<◌, ◌≡◌, refl, ap, ◌∙◌, inl, inr, true, not, Option, none, some, List, [], ◌∷◌, map,
  ◌==◌, nat_Eq, lookup, contains_key, is_empty, get_elem?, length, Member, Bool-cases, Option-cases,
  nat_eq_iff, arith, ok, >>-eq-ok, zero, suc,
}
use rootcause.Prelude.Sort.{sort_by_key-Member}
use rootcause.Facts.Arena.{saturate_u32, u32_mod}
use rootcause.Facts.Trace.{Trace}
use rootcause.Dsl.Ir.{EvidenceRef, CompiledEvidence, CompiledPattern}
use rootcause.Matcher.Binding.{Binding, EvidenceBinding, CandidateMatch}
use rootcause.Matcher.Constraint.{holds}
use rootcause.Matcher.Constraint.Polarity.{holds_monotone}
use rootcause.Matcher.Index.{TraceIndex}
use rootcause.Matcher.Predicate.{evaluate}
use rootcause.Matcher.SameCall.{Bindings, matches_at}
use rootcause.Matcher.SameCall.Origin.{FromMatches}
use rootcause.Matcher.Engine.{
  has_match, is_present, bind_all, candidate_of, choose, referenced, candidates, anchor_index,
  global_candidate, check_in_bounds, evidence_matches, find_candidates,
}
use rootcause.Matcher.Engine.Built.{
  Built, candidates_from-Built, resolve_sequence-FromMatches, same_call_bindings-FromMatches,
  choose-Member,
}

Member-nonempty : (bs : List Binding) (b : Binding) → Member b bs → not (is_empty bs) ≡ true
Member-nonempty [] b m = absurd m
Member-nonempty (x ∷ bs) b m = refl

-- Under a candidate's own bindings a clause counts as matched only if it has a match in the trace.
pub has_match-is_present :
    (m : List (List Binding)) (i : ℕ) (a : Binding) (seq : Bindings) (e : EvidenceRef)
    → Member a (matches_at m i)
    → FromMatches m seq
    → has_match m i seq e ≡ true
    → is_present m e ≡ true
has_match-is_present m i a seq e here from h = elim (Bool-cases (e == i)) [
  | inl is_anchor ↦ rw ((nat_eq_iff e i).0 is_anchor) (Member-nonempty (matches_at m i) a here)
  | inr other ↦ elim (Option-cases (lookup e seq)) [
    | inr (b, bound) ↦ Member-nonempty (matches_at m e) b (from e b bound)
    | inl free ↦ rw (other, free, has_match, contains_key) at h
  ]
]

pub is_present-has_match :
    (m : List (List Binding)) (i : ℕ) (seq : Bindings) (e : EvidenceRef)
    → is_present m e ≡ true
    → has_match m i seq e ≡ true
is_present-has_match m i seq e h = ground arith

Built-holds :
    (t : Trace) (p : CompiledPattern) (m : List (List Binding)) (i : ℕ) (a : Binding)
    (c : CandidateMatch)
    → Member a (matches_at m i)
    → Built t p m i a c
    → holds p.constraint (is_present m) ≡ true
Built-holds t p m i a c here built =
    let from =
      resolve_sequence-FromMatches p.sequence m i a built.sequence_bindings here built.sequenced in
    holds_monotone p.constraint (has_match m i built.sequence_bindings) (is_present m)
      (λ e o. has_match-is_present m i a built.sequence_bindings e here from)
      (λ e o. is_present-has_match m i built.sequence_bindings e) built.satisfied

candidates-holds :
    (t : Trace) (p : CompiledPattern) (m : List (List Binding)) (c : CandidateMatch)
    → Member c (candidates t p m)
    → holds p.constraint (is_present m) ≡ true
unfolding candidates global_candidate
candidates-holds t p m c mem = elim (Option-cases (anchor_index p)) [
  | inr (i, anchored) ↦
      let (a, here, built) =
        candidates_from-Built t p m i (matches_at m i) c (rw (anchored, candidates) at mem) in
      Built-holds t p m i a c here built
  | inl no_anchor ↦ elim (Bool-cases (holds p.constraint (is_present m))) [
    | inl satisfied ↦ satisfied
    | inr unmet ↦ absurd (rw (no_anchor, unmet, candidates, global_candidate) at mem)
  ]
]

-- Every candidate's pattern has a constraint that is true of the trace as a whole: read with each
-- clause as "its predicate is satisfied by some fact", negated clauses included.
pub find_candidates-holds :
    (t : Trace) (index : TraceIndex) (p : CompiledPattern) (cs : List CandidateMatch)
    (c : CandidateMatch)
    → find_candidates t index p ≡ ok cs
    → Member c cs
    → holds p.constraint (is_present (evidence_matches t index p)) ≡ true
unfolding find_candidates
find_candidates-holds t index p cs c h mem =
    let (_, _, found) =
      >>-eq-ok (check_in_bounds p) (ok (candidates t p (evidence_matches t index p))) h in
    let same : candidates t p (evidence_matches t index p) ≡ cs = cc in
    candidates-holds t p (evidence_matches t index p) c (rw same mem)

bind_all-Member :
    (choice : ℕ → Option Binding) (indices : List ℕ) (eb : EvidenceBinding)
    → Member eb (bind_all choice indices)
    → (idx : ℕ) × (b : Binding) × (choice idx ≡ some b)
      × (eb.evidence ≡ saturate_u32 idx)
      × (eb.fact ≡ b.fact)
unfolding bind_all
bind_all-Member choice [] eb mem = absurd mem
bind_all-Member choice (idx ∷ rest) eb mem = elim (Option-cases (choice idx)) [
  | inl skipped ↦ bind_all-Member choice rest eb (rw (skipped, bind_all) at mem)
  | inr (b, chosen) ↦ elim (rw (chosen, bind_all) at mem) [
    | inl e ↦ (
      idx,
      b,
      chosen,
      ap (λ (x : EvidenceBinding). x.evidence) e,
      ap (λ (x : EvidenceBinding). x.fact) e,
    )
    | inr later ↦ bind_all-Member choice rest eb later
  ]
]

candidate_of-bindings :
    (p : CompiledPattern) (choice : ℕ → Option Binding) (indices : List ℕ) (eb : EvidenceBinding)
    → Member eb (candidate_of p choice indices).bindings
    → (idx : ℕ) × (b : Binding) × (choice idx ≡ some b)
      × (eb.evidence ≡ saturate_u32 idx)
      × (eb.fact ≡ b.fact)
unfolding candidate_of
candidate_of-bindings p choice indices eb mem =
    bind_all-Member choice indices eb (
      (sort_by_key-Member (λ (b : EvidenceBinding). b.evidence) (bind_all choice indices) eb).0 mem)

-- A binding of a candidate: its clause, and one of that clause's matches.
abbrev IsCited : List (List Binding) → EvidenceBinding → Type 0
IsCited m eb =
    (idx : ℕ) × (b : Binding) × Member b (matches_at m idx)
    × (eb.evidence ≡ saturate_u32 idx)
    × (eb.fact ≡ b.fact)

Built-IsCited :
    (t : Trace) (p : CompiledPattern) (m : List (List Binding)) (i : ℕ) (a : Binding)
    (c : CandidateMatch) (eb : EvidenceBinding)
    → Member a (matches_at m i)
    → Built t p m i a c
    → Member eb c.bindings
    → IsCited m eb
Built-IsCited t p m i a c eb here built mem =
    let seq = built.sequence_bindings in
    let from = resolve_sequence-FromMatches p.sequence m i a seq here built.sequenced in
    let from_calls =
      same_call_bindings-FromMatches t p m i a seq built.same_calls here from built.correlated in
    let choice = choose m i a seq built.same_calls in
    let own : Member eb (candidate_of p choice (referenced p i seq built.same_calls)).bindings =
      rw (← built.result) mem in
    let (idx, b, chosen, evidence, fact) =
      candidate_of-bindings p choice (referenced p i seq built.same_calls) eb own in
    (
      idx,
      b,
      choose-Member m i a seq built.same_calls idx b here from from_calls chosen,
      evidence,
      fact,
    )

candidates-IsCited :
    (t : Trace) (p : CompiledPattern) (m : List (List Binding)) (c : CandidateMatch)
    (eb : EvidenceBinding)
    → Member c (candidates t p m)
    → Member eb c.bindings
    → IsCited m eb
unfolding candidates global_candidate
candidates-IsCited t p m c eb mem bound = elim (Option-cases (anchor_index p)) [
  | inr (i, anchored) ↦
      let (a, here, built) =
        candidates_from-Built t p m i (matches_at m i) c (rw (anchored, candidates) at mem) in
      Built-IsCited t p m i a c eb here built bound
  | inl no_anchor ↦ elim (Bool-cases (holds p.constraint (is_present m))) [
    | inr unmet ↦ absurd (rw (no_anchor, unmet, candidates, global_candidate) at mem)
    | inl satisfied ↦ elim (rw (no_anchor, satisfied, candidates, global_candidate) at mem) [
      | inr left ↦ absurd left
      | inl same ↦
          let own : Member eb (candidate_of p (λ i. none) []).bindings = rw same at bound in
          let (idx, b, chosen, evidence, fact) = candidate_of-bindings p (λ i. none) [] eb own in
          absurd (let impossible : ◌≡◌ {A = Option Binding} none (some b) = chosen in cc)
    ]
  ]
]

matches_at-map :
    (f : CompiledEvidence → List Binding) (es : List CompiledEvidence) (idx : ℕ) (b : Binding)
    → Member b (matches_at (map f es) idx)
    → (ev : CompiledEvidence) × (get_elem? es idx ≡ some ev) × Member b (f ev) × (idx < length es)
matches_at-map f [] idx b mem = absurd mem
matches_at-map f (e ∷ es) zero b mem = (e, refl, mem, omega arith)
matches_at-map f (e ∷ es) (suc idx) b mem =
    let (ev, at, found, low) = matches_at-map f es idx b mem in (ev, at, found, omega arith)

saturate_u32-small : (i n : ℕ) → i < n → n ≤ u32_mod → saturate_u32 i ≡ i
saturate_u32-small i n h few = ground arith

-- Every binding of every candidate names a clause of the pattern and cites a fact that satisfies
-- that clause's predicate in this trace. The pattern has at most 2^32 clauses.
pub find_candidates-cites :
    (t : Trace) (index : TraceIndex) (p : CompiledPattern) (cs : List CandidateMatch)
    (c : CandidateMatch) (eb : EvidenceBinding)
    → length p.evidence ≤ u32_mod
    → find_candidates t index p ≡ ok cs
    → Member c cs
    → Member eb c.bindings
    → (ev : CompiledEvidence) × (b : Binding) × (get_elem? p.evidence eb.evidence ≡ some ev)
      × Member b (evaluate t index ev.predicate)
      × (eb.fact ≡ b.fact)
unfolding find_candidates evidence_matches
find_candidates-cites t index p cs c eb few h mem bound =
    let m = evidence_matches t index p in
    let (_, _, found) = >>-eq-ok (check_in_bounds p) (ok (candidates t p m)) h in
    let same : candidates t p m ≡ cs = cc in
    let (idx, b, matched, evidence, fact) = candidates-IsCited t p m c eb (rw same mem) bound in
    let (ev, at, satisfied, low) =
      matches_at-map (λ ev. evaluate t index ev.predicate) p.evidence idx b matched in
    let is_idx : eb.evidence ≡ idx =
      evidence ∙ saturate_u32-small idx (length p.evidence) low few in
    (ev, b, ap (get_elem? p.evidence) is_idx ∙ at, satisfied, fact)

-- The candidate names its pattern.
abbrev pub NamesPattern : CandidateMatch → CompiledPattern → Type 0
NamesPattern c p = (c.pattern_id ≡ p.id) × (c.pattern_version ≡ p.version)

candidates-NamesPattern :
    (t : Trace) (p : CompiledPattern) (m : List (List Binding)) (c : CandidateMatch)
    → Member c (candidates t p m)
    → NamesPattern c p
unfolding candidates global_candidate candidate_of
candidates-NamesPattern t p m c mem = elim (Option-cases (anchor_index p)) [
  | inr (i, anchored) ↦
      let (a, here, built) =
        candidates_from-Built t p m i (matches_at m i) c (rw (anchored, candidates) at mem) in
      (
        ap (λ (c : CandidateMatch). c.pattern_id) built.result,
        ap (λ (c : CandidateMatch). c.pattern_version) built.result,
      )
  | inl no_anchor ↦ elim (Bool-cases (holds p.constraint (is_present m))) [
    | inr unmet ↦ absurd (rw (no_anchor, unmet, candidates, global_candidate) at mem)
    | inl satisfied ↦ elim (rw (no_anchor, satisfied, candidates, global_candidate) at mem) [
      | inr left ↦ absurd left
      | inl same ↦ (
        ap (λ (c : CandidateMatch). c.pattern_id) same,
        ap (λ (c : CandidateMatch). c.pattern_version) same,
      )
    ]
  ]
]

pub find_candidates-NamesPattern :
    (t : Trace) (index : TraceIndex) (p : CompiledPattern) (cs : List CandidateMatch)
    (c : CandidateMatch)
    → find_candidates t index p ≡ ok cs
    → Member c cs
    → NamesPattern c p
unfolding find_candidates
find_candidates-NamesPattern t index p cs c h mem =
    let (_, _, found) =
      >>-eq-ok (check_in_bounds p) (ok (candidates t p (evidence_matches t index p))) h in
    let same : candidates t p (evidence_matches t index p) ≡ cs = cc in
    candidates-NamesPattern t p (evidence_matches t index p) c (rw same mem)
