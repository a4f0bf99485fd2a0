-- ===== src/Matcher/Engine/Complete.antt =====
-- What `find_candidates` does not miss.
use rootcause.Prelude.{
  ℕ, ◌≡◌, refl, sym, ap, ◌∙◌, inl, inr, true, Option, none, some, List, [], ◌∷◌, nat_Eq, Member,
  Member-insert_self, Option-cases, nat_eq_iff, ok, >>-eq-ok,
}
use rootcause.Prelude.Sort.{sort_by_key-Member}
use rootcause.Facts.Arena.{saturate_u32}
use rootcause.Facts.Trace.{Trace}
use rootcause.Dsl.Ir.{CompiledPattern}
use rootcause.Matcher.Binding.{Binding, EvidenceBinding, CandidateMatch}
use rootcause.Matcher.Constraint.{holds}
use rootcause.Matcher.Constraint.Polarity.{holds_monotone}
use rootcause.Matcher.Index.{TraceIndex}
use rootcause.Matcher.SameCall.{matches_at}
use rootcause.Matcher.Engine.{
  has_match, is_present, bind_all, candidate_of, choose, referenced, candidates_from, candidates,
  anchor_index, check_in_bounds, evidence_matches, find_candidates, resolve_sequence,
  same_call_bindings, try_build_candidate,
}
use rootcause.Matcher.Engine.Built.{FromMatches-nil}
use rootcause.Matcher.Engine.Sound.{has_match-is_present, is_present-has_match}

-- The candidate binds this fact.
abbrev pub Reports : CandidateMatch → ℕ → Binding → Type 0
Reports c idx b = Member (record { evidence = saturate_u32 idx; fact = b.fact }) c.bindings

bind_all_complete :
    (choice : ℕ → Option Binding) (indices : List ℕ) (idx : ℕ) (b : Binding)
    → Member idx indices
    → choice idx ≡ some b
    → Member (record { evidence = saturate_u32 idx; fact = b.fact }) (bind_all choice indices)
unfolding bind_all
bind_all_complete choice [] idx b mem chosen = absurd mem
bind_all_complete choice (i ∷ rest) idx b (inl e) chosen =
    let here : choice i ≡ some b = ap choice (sym e) ∙ chosen in
    rw (here, bind_all) (inl (ap (λ j. record { evidence = saturate_u32 j; fact = b.fact }) e))
bind_all_complete choice (i ∷ rest) idx b (inr later) chosen = elim (Option-cases (choice i)) [
  | inl skipped ↦ rw (skipped, bind_all) (bind_all_complete choice rest idx b later chosen)
  | inr (d, bound) ↦ rw (bound, bind_all) (inr (bind_all_complete choice rest idx b later chosen))
]

-- The candidate of an anchor occurrence, for a pattern with no sequence and no same-call group.
abbrev plain_candidate : CompiledPattern → List (List Binding) → ℕ → Binding → CandidateMatch
plain_candidate p m i a = candidate_of p (choose m i a [] []) (referenced p i [] [])

plain_candidate-Reports :
    (p : CompiledPattern) (m : List (List Binding)) (i : ℕ) (a : Binding)
    → Reports (plain_candidate p m i a) i a
unfolding candidate_of choose referenced
plain_candidate-Reports p m i a =
    (sort_by_key-Member (λ (b : EvidenceBinding). b.evidence)
        (bind_all (choose m i a [] []) (referenced p i [] []))
        (record { evidence = saturate_u32 i; fact = a.fact })).1
      (bind_all_complete (choose m i a [] []) (referenced p i [] []) i a (Member-insert_self i _)
        (rw ((nat_eq_iff i i).1 refl)))

try_build_candidate-plain :
    (t : Trace) (p : CompiledPattern) (m : List (List Binding)) (i : ℕ) (a : Binding)
    → p.sequence ≡ none
    → p.same_call ≡ none
    → holds p.constraint (is_present m) ≡ true
    → Member a (matches_at m i)
    → try_build_candidate t p m i a ≡ some (plain_candidate p m i a)
unfolding try_build_candidate resolve_sequence same_call_bindings
try_build_candidate-plain t p m i a no_sequence no_group satisfied here =
    let under : holds p.constraint (has_match m i []) ≡ true =
      holds_monotone p.constraint (is_present m) (has_match m i [])
        (λ e o. is_present-has_match m i [] e)
        (λ e o. has_match-is_present m i a [] e here (FromMatches-nil m)) satisfied in
    rw (no_sequence, resolve_sequence, under, no_group, same_call_bindings) refl

candidates_from-Member :
    (t : Trace) (p : CompiledPattern) (m : List (List Binding)) (i : ℕ) (bs : List Binding)
    (a : Binding) (c : CandidateMatch)
    → Member a bs
    → try_build_candidate t p m i a ≡ some c
    → Member c (candidates_from t p m i bs)
unfolding candidates_from
candidates_from-Member t p m i [] a c mem built = absurd mem
candidates_from-Member t p m i (b ∷ bs) a c (inl e) built =
    let here : try_build_candidate t p m i b ≡ some c =
      ap (try_build_candidate t p m i) (sym e) ∙ built in
    rw (here, candidates_from) (inl refl)
candidates_from-Member t p m i (b ∷ bs) a c (inr later) built =
    elim (Option-cases (try_build_candidate t p m i b)) [
      | inl failed ↦
          rw (failed, candidates_from) (candidates_from-Member t p m i bs a c later built)
      | inr (d, made) ↦
          rw (made, candidates_from) (inr (candidates_from-Member t p m i bs a c later built))
    ]

-- No occurrence is missed: for a pattern with no sequence and no same-call group, whose references
-- are in range and whose constraint holds of the trace, each match of the anchor clause has a
-- candidate, which binds the anchor clause to it.
pub find_candidates-Reports :
    (t : Trace) (index : TraceIndex) (p : CompiledPattern) (cs : List CandidateMatch) (i : ℕ)
    (a : Binding)
    → p.sequence ≡ none
    → p.same_call ≡ none
    → anchor_index p ≡ some i
    → find_candidates t index p ≡ ok cs
    → holds p.constraint (is_present (evidence_matches t index p)) ≡ true
    → Member a (matches_at (evidence_matches t index p) i)
    → (c : CandidateMatch) × Member c cs × Reports c i a
unfolding find_candidates candidates
find_candidates-Reports t index p cs i a no_sequence no_group anchored h satisfied here =
    let m = evidence_matches t index p in
    let (_, _, found) = >>-eq-ok (check_in_bounds p) (ok (candidates t p m)) h in
    let same : candidates t p m ≡ cs = cc in
    let built = try_build_candidate-plain t p m i a no_sequence no_group satisfied here in
    let listed =
      candidates_from-Member t p m i (matches_at m i) a (plain_candidate p m i a) here built in
    (
      plain_candidate p m i a,
      rw (← same, anchored, candidates) listed,
      plain_candidate-Reports p m i a,
    )
