-- ===== src/Grounding/Engine/Total.antt =====
-- What `ground` returns for a candidate that the matcher produced.
use rootcause.Prelude.{
  ℕ, suc, ◌≤◌, ◌≡◌, refl, ◌⊎◌, inl, inr, true, Option, none, List, [], ◌∷◌, string_Eq, nat_Eq, ok,
  err, try_for_each_complete, Member, Member-All, length, get_elem?_of_lt, Option-cases,
  Result-cases, nat_eq_iff,
}
use rootcause.Facts.Types.{FactRef, call_ref, storage_change_ref, log_ref, token_transfer_ref}
use rootcause.Facts.Arena.{u32_mod, saturate_u32, call, storage_change, log, token_transfer}
use rootcause.Facts.Arena.Ids.{IsIndexed}
use rootcause.Facts.Trace.{Trace}
use rootcause.Dsl.Ir.{EvidenceRef, CompiledEvidence, CompiledPattern}
use rootcause.Matcher.Binding.{EvidenceBinding, CandidateMatch, fact_for}
use rootcause.Matcher.Identity.{Resolves}
use rootcause.Matcher.Index.{TraceIndex, build_index}
use rootcause.Matcher.Predicate.Placed.{evaluate-IsPlaced}
use rootcause.Matcher.Engine.{find_candidates}
use rootcause.Matcher.Engine.Sound.{
  find_candidates-cites, NamesPattern, find_candidates-NamesPattern,
}
use rootcause.Grounding.Status.{
  EvidenceVerification, Polarity, VerifierOutcome, verification_failure, unsupported, no_verifier,
}
use rootcause.Grounding.Polarity.{analyze, polarity_of}
use rootcause.Grounding.Verifier.{default_verifiers, get_verifier}
use rootcause.Grounding.Engine.{
  GroundingResult, check_candidate_matches_pattern, check_bindings_resolve, check_binding,
  fact_resolves, verify_one, verify_from, verify_all_evidence, analyzed_of, result_of, ground_with,
  ground_candidate, entry_for,
}

Resolves-fact_resolves : (t : Trace) (f : FactRef) → Resolves t.arena f → fact_resolves t f ≡ true
unfolding fact_resolves call storage_change log token_transfer
Resolves-fact_resolves t (call_ref id) h = rw (get_elem?_of_lt t.arena.calls id h).1
Resolves-fact_resolves t (storage_change_ref id) h =
    rw (get_elem?_of_lt t.arena.storage_changes id h).1
Resolves-fact_resolves t (log_ref id) h = rw (get_elem?_of_lt t.arena.logs id h).1
Resolves-fact_resolves t (token_transfer_ref id) h =
    rw (get_elem?_of_lt t.arena.token_transfers id h).1

NamesPattern-check :
    (c : CandidateMatch) (p : CompiledPattern)
    → NamesPattern c p
    → check_candidate_matches_pattern c p ≡ ok tt
unfolding check_candidate_matches_pattern
NamesPattern-check c p (same_id, same_version) = rw (
  (string_Eq.eqb_iff c.pattern_id p.id).1 same_id,
  (nat_eq_iff c.pattern_version p.version).1 same_version,
)

check_bindings_resolve_complete :
    (c : CandidateMatch) (t : Trace)
    → ((b : EvidenceBinding) → Member b c.bindings → fact_resolves t b.fact ≡ true)
    → check_bindings_resolve c t ≡ ok tt
unfolding check_bindings_resolve check_binding
check_bindings_resolve_complete c t h =
    try_for_each_complete (λ (b : EvidenceBinding). fact_resolves t b.fact ≡ true) (check_binding t)
      c.bindings (λ b found. rw found)
      (Member-All (λ (b : EvidenceBinding). fact_resolves t b.fact ≡ true) c.bindings h)

-- The default registry always gives an outcome.
verify_one-total :
    (t : Trace) (index : TraceIndex) (decl : CompiledEvidence) (polarity : Polarity)
    (cited_fact : Option FactRef)
    → (o : VerifierOutcome) × (verify_one default_verifiers t index decl polarity cited_fact ≡ ok o)
unfolding verify_one default_verifiers
verify_one-total t index decl polarity cited_fact =
    elim (Option-cases (get_verifier default_verifiers decl.predicate.kind)) [
      | inl unknown ↦ (
        record {
          outcome = unsupported;
          fact = none;
          unresolved_attrs = [];
          reason = no_verifier decl.predicate.kind;
        },
        rw (unknown, verify_one) refl,
      )
      | inr (verify, known) ↦
          (verify t index decl.predicate polarity cited_fact, rw (known, verify_one) refl)
    ]

verify_from-total :
    (t : Trace) (index : TraceIndex) (c : CandidateMatch) (analyzed : List (EvidenceRef × Polarity))
    (i : ℕ) (decls : List CompiledEvidence)
    → (chain : List EvidenceVerification) × (verify_from default_verifiers t index c analyzed i
          decls
        ≡ ok chain)
unfolding verify_from
verify_from-total t index c analyzed i [] = ([], refl)
verify_from-total t index c analyzed i (d ∷ decls) =
    let e = saturate_u32 i in
    let polarity = polarity_of analyzed e in
    let (o, first) = verify_one-total t index d polarity (fact_for c e) in
    let (rest, later) = verify_from-total t index c analyzed (suc i) decls in
    (entry_for e d polarity o ∷ rest, rw (first, later) refl)

-- In a trace whose ids are positions, and for a pattern of at most 2^32 clauses, `ground` with the
-- default verifiers returns a result for each candidate that `find_candidates` gives, unless the
-- pattern's constraint uses a clause with both signs, which `analyze` reports: it reports no missing
-- fact, no other pattern and no unknown verifier.
pub ground_candidate-total :
    (t : Trace) (index : TraceIndex) (p : CompiledPattern) (cs : List CandidateMatch)
    (c : CandidateMatch)
    → IsIndexed t.arena
    → length p.evidence ≤ u32_mod
    → find_candidates t index p ≡ ok cs
    → Member c cs
    → ((r : GroundingResult) × (ground_candidate c t p ≡ ok r))
      ⊎ ((e : EvidenceRef) × (analyze p.constraint ≡ err e)
          × (ground_candidate c t p ≡ err (verification_failure e)))
unfolding ground_candidate ground_with verify_all_evidence analyzed_of
ground_candidate-total t index p cs c indexed few h mem =
    let named = NamesPattern-check c p (find_candidates-NamesPattern t index p cs c h mem) in
    let cited = check_bindings_resolve_complete c t (λ b bound.
      let (ev, d, at, satisfied, fact) = find_candidates-cites t index p cs c b few h mem bound in
      let (exists, _) = evaluate-IsPlaced t index ev.predicate d indexed satisfied in
      Resolves-fact_resolves t b.fact (rw fact exists)) in
    elim (Result-cases (analyze p.constraint)) [
      | inr (e, refused) ↦ inr (e, refused, rw (named, cited, refused) refl)
      | inl (analyzed, accepted) ↦
          let (chain, verification) = verify_from-total t (build_index t) c analyzed 0 p.evidence in
          inl (result_of t p chain, rw (named, cited, accepted, verification) refl)
    ]
