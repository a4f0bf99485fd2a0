-- ===== src/Grounding/Engine/Grounded.antt =====
-- What a result of `ground` rests on: every entry of its chain, and a `Grounded` verdict.
use rootcause.Prelude.{
  ℕ, zero, suc, ◌+◌, ◌≡◌, refl, sym, ap, ◌∙◌, inl, inr, true, Option, some, List, [], ◌∷◌, String,
  Result, ok, err, ◌>>=◌, ◌>>◌, >>-eq-ok, >>=-eq-ok, get_elem?, Member, string_Eq,
  lookup-map_insert_inv, Option-cases, Bool-cases, is_empty, arith,
}
use rootcause.Facts.Types.{FactRef}
use rootcause.Facts.Arena.{saturate_u32}
use rootcause.Facts.Trace.{Trace}
use rootcause.Dsl.Ir.{EvidenceRef, CompiledEvidence, CompiledPattern, required}
use rootcause.Matcher.Binding.{CandidateMatch, fact_for}
use rootcause.Matcher.Index.{TraceIndex, build_index}
use rootcause.Matcher.Predicate.{evaluate}
use rootcause.Grounding.Status.{
  grounded, verified, unsupported, Polarity, VerifierOutcome, EvidenceVerification, GroundingError,
  is_required,
}
use rootcause.Grounding.Polarity.{analyze, polarity_of}
use rootcause.Grounding.Verifier.{
  VerifierRegistry, Verifier, register, get_verifier, default_verifiers,
  verify_via_matcher_predicate,
}
use rootcause.Grounding.Verifier.Outcomes.{IsBacked, verify_via_matcher_predicate-IsBacked}
use rootcause.Grounding.Relations.{verify_sequence, verify_same_call}
use rootcause.Grounding.Aggregate.Verdict.{IsConfirmed, aggregate_status-grounded_iff}
use rootcause.Grounding.Engine.{
  GroundingResult, check_candidate_matches_pattern, check_bindings_resolve, verify_one, verify_from,
  verify_all_evidence, entry_for, analyzed_of, result_of, build_result, ground_with,
  ground_candidate,
}

-- What `ground` went through to return a result.
pub record Run (registry : VerifierRegistry) (c : CandidateMatch) (t : Trace) (p : CompiledPattern)
    (r : GroundingResult) : Type 0 where
  pub analyzed : List (EvidenceRef × Polarity)
  pub chain : List EvidenceVerification
  pub checked : check_candidate_matches_pattern c p ≡ ok tt
  pub resolved : check_bindings_resolve c t ≡ ok tt
  pub analysis : analyze p.constraint ≡ ok analyzed
  pub verification : verify_all_evidence registry t (build_index t) p c analyzed ≡ ok chain
  pub result : r ≡ result_of t p chain

analyzed_of-ok :
    (a : Result EvidenceRef (List (EvidenceRef × Polarity))) (b : List (EvidenceRef × Polarity))
    → analyzed_of a ≡ ok b
    → a ≡ ok b
unfolding analyzed_of
analyzed_of-ok (ok a) b h = cc
analyzed_of-ok (err e) b h = absurd (cc)

ground_with-Run :
    (registry : VerifierRegistry) (c : CandidateMatch) (t : Trace) (p : CompiledPattern)
    (r : GroundingResult)
    → ground_with registry c t p ≡ ok r
    → Run registry c t p r
unfolding ground_with
ground_with-Run registry c t p r h =
    let last : List EvidenceVerification → Result GroundingError GroundingResult =
      λ chain. ok (result_of t p chain) in
    let after : List (EvidenceRef × Polarity) → Result GroundingError GroundingResult =
      λ analyzed. verify_all_evidence registry t (build_index t) p c analyzed >>= last in
    let (_, checked, h1) =
      >>-eq-ok (check_candidate_matches_pattern c p)
        (check_bindings_resolve c t >> (analyzed_of (analyze p.constraint) >>= after)) h in
    let (_, resolved, h2) =
      >>-eq-ok (check_bindings_resolve c t) (analyzed_of (analyze p.constraint) >>= after) h1 in
    let (analyzed, a, h3) = >>=-eq-ok (analyzed_of (analyze p.constraint)) after h2 in
    let (chain, v, h4) =
      >>=-eq-ok (verify_all_evidence registry t (build_index t) p c analyzed) last h3 in
    record {
      analyzed = analyzed;
      chain = chain;
      checked = checked;
      resolved = resolved;
      analysis = analyzed_of-ok (analyze p.constraint) analyzed a;
      verification = v;
      result = cc;
    }

-- The entry at `k` of the chain is that of the clause `decl`, whose reference is `j`.
abbrev HasEntry :
    VerifierRegistry
    → Trace
    → TraceIndex
    → CandidateMatch
    → List (EvidenceRef × Polarity)
    → ℕ
    → List EvidenceVerification
    → ℕ
    → CompiledEvidence
    → Type 0
HasEntry registry t index c analyzed j chain k decl =
    (o : VerifierOutcome) × (verify_one registry t index decl
        (polarity_of analyzed (saturate_u32 j)) (fact_for c (saturate_u32 j))
      ≡ ok o)
    × (get_elem? chain k
        ≡ some (entry_for (saturate_u32 j) decl (polarity_of analyzed (saturate_u32 j)) o))

verify_from-cons :
    (registry : VerifierRegistry) (t : Trace) (index : TraceIndex) (c : CandidateMatch)
    (analyzed : List (EvidenceRef × Polarity)) (i : ℕ) (d : CompiledEvidence)
    (decls : List CompiledEvidence) (chain : List EvidenceVerification)
    → verify_from registry t index c analyzed i (d ∷ decls) ≡ ok chain
    → (o : VerifierOutcome) × (rest : List EvidenceVerification) × (verify_one registry t index d
          (polarity_of analyzed (saturate_u32 i))
          (fact_for c (saturate_u32 i))
        ≡ ok o)
      × (verify_from registry t index c analyzed (suc i) decls ≡ ok rest)
      × (chain ≡ entry_for (saturate_u32 i) d (polarity_of analyzed (saturate_u32 i)) o ∷ rest)
unfolding verify_from
verify_from-cons registry t index c analyzed i d decls chain h =
    let e = saturate_u32 i in
    let polarity = polarity_of analyzed e in
    let cons_entry : VerifierOutcome
        → List EvidenceVerification
        → Result GroundingError (List EvidenceVerification) =
      λ o rest. ok (entry_for e d polarity o ∷ rest) in
    let tail : VerifierOutcome → Result GroundingError (List EvidenceVerification) =
      λ o. verify_from registry t index c analyzed (suc i) decls >>= cons_entry o in
    let (o, first, h1) = >>=-eq-ok (verify_one registry t index d polarity (fact_for c e)) tail h in
    let (rest, later, h2) =
      >>=-eq-ok (verify_from registry t index c analyzed (suc i) decls) (cons_entry o) h1 in
    (o, rest, first, later, cc)

verify_from-entry :
    (registry : VerifierRegistry) (t : Trace) (index : TraceIndex) (c : CandidateMatch)
    (analyzed : List (EvidenceRef × Polarity)) (i : ℕ) (decls : List CompiledEvidence)
    (chain : List EvidenceVerification) (k j : ℕ) (decl : CompiledEvidence)
    → j ≡ i + k
    → verify_from registry t index c analyzed i decls ≡ ok chain
    → get_elem? decls k ≡ some decl
    → HasEntry registry t index c analyzed j chain k decl
verify_from-entry registry t index c analyzed i [] chain k j decl place h at = absurd (cc)
verify_from-entry registry t index c analyzed i (d ∷ decls) chain zero j decl place h at =
    let (o, rest, first, later, is_cons) =
      verify_from-cons registry t index c analyzed i d decls chain h in
    let is_i : j ≡ i = omega arith in
    let same : d ≡ decl = cc in rw (is_cons, is_i, ← same) (o, first, refl)
verify_from-entry registry t index c analyzed i (d ∷ decls) chain (suc k) j decl place h at =
    let (o, rest, first, later, is_cons) =
      verify_from-cons registry t index c analyzed i d decls chain h in
    rw is_cons (
      verify_from-entry registry t index c analyzed (suc i) decls rest k j decl (omega arith) later
        at)

-- Every verifier of the default registry is the one function that they share.
AllDefault : VerifierRegistry → Type 0
AllDefault r =
    (kind : String) (v : Verifier) → get_verifier r kind ≡ some v → v ≡ verify_via_matcher_predicate

register-AllDefault :
    (r : VerifierRegistry) (kind : String)
    → AllDefault r
    → AllDefault (register r kind verify_via_matcher_predicate)
unfolding AllDefault register get_verifier
register-AllDefault r kind h k v at =
    elim (lookup-map_insert_inv kind k verify_via_matcher_predicate v r at) [
      | inl (same, is_v) ↦ sym is_v
      | inr old ↦ h k v old
    ]

default_verifiers-AllDefault : AllDefault default_verifiers
unfolding default_verifiers AllDefault get_verifier
default_verifiers-AllDefault =
    let v = verify_via_matcher_predicate in
    let r1 = register [] "call" v in
    let r2 = register r1 "storage" v in
    let r3 = register r2 "value_flow" v in
    let r4 = register r3 "token_transfer" v in
    let r5 = register r4 "transaction" v in
    register-AllDefault r5 "log" (
      register-AllDefault r4 "transaction" (
        register-AllDefault r3 "token_transfer" (
          register-AllDefault r2 "value_flow" (
            register-AllDefault r1 "storage"
              (register-AllDefault [] "call" (λ kind v at. absurd (cc)))))))

verify_one-IsBacked :
    (registry : VerifierRegistry) (t : Trace) (index : TraceIndex) (decl : CompiledEvidence)
    (polarity : Polarity) (cited_fact : Option FactRef) (o : VerifierOutcome)
    → AllDefault registry
    → verify_one registry t index decl polarity cited_fact ≡ ok o
    → o.outcome ≡ verified
    → IsBacked (evaluate t index decl.predicate) polarity cited_fact o.fact
unfolding verify_one AllDefault
verify_one-IsBacked registry t index decl polarity cited_fact o all h v =
    elim (Option-cases (get_verifier registry decl.predicate.kind)) [
      | inl unknown ↦ elim (Bool-cases (is_empty registry)) [
        | inl empty ↦ absurd (let stuck = rw (unknown, empty, verify_one) at h in cc)
        | inr other ↦ absurd (
            let done = rw (unknown, other, verify_one) at h in
            let stuck =
              ap
                (λ (r : Result GroundingError VerifierOutcome). elim r [
                  | ok o ↦ o.outcome
                  | err e ↦ unsupported
                ])
                done in
            cc)
      ]
      | inr (verify, known) ↦
          let is_default = all decl.predicate.kind verify known in
          let done = rw (known, verify_one) at h in
          let same : verify_via_matcher_predicate t index decl.predicate polarity cited_fact ≡ o =
            ap (λ (w : Verifier). w t index decl.predicate polarity cited_fact) (sym is_default)
            ∙ cc in
          rw (← same) (
            verify_via_matcher_predicate-IsBacked t index decl.predicate polarity cited_fact
              (ap (λ (o : VerifierOutcome). o.outcome) same ∙ v))
    ]

required-IsVerified :
    (t : Trace) (p : CompiledPattern) (chain : List EvidenceVerification)
    → (result_of t p chain).status ≡ grounded
    → ((e : EvidenceVerification)
        → Member e chain
        → is_required e.requiredness ≡ true
        → e.outcome ≡ verified)
      × IsConfirmed (verify_sequence t p chain)
      × IsConfirmed (verify_same_call t p chain)
unfolding result_of build_result
required-IsVerified t p chain h =
    (aggregate_status-grounded_iff chain (verify_sequence t p chain) (verify_same_call t p chain)).0
      h

result_of-chain :
    (t : Trace) (p : CompiledPattern) (chain : List EvidenceVerification)
    → (result_of t p chain).evidence_chain ≡ chain
unfolding result_of build_result
result_of-chain t p chain = refl

get_elem?-Member :
    {A : Type 0} (xs : List A) (i : ℕ) (a : A) → get_elem? xs i ≡ some a → Member a xs
get_elem?-Member [] i a h = absurd (cc)
get_elem?-Member (x ∷ xs) zero a h = inl cc
get_elem?-Member (x ∷ xs) (suc i) a h = inr (get_elem?-Member xs i a h)

-- If `ground` with the default verifiers returns a `Grounded` result, then each required clause of
-- the pattern is backed by the trace itself: a clause that the constraint refers to under a negation
-- has no match in the trace, and any other required clause has one, which is the fact that the
-- candidate cites for it, if it cites one; and the pattern's sequence and same-call relation, if it
-- has them, are confirmed from the verified facts.
pub ground_candidate-grounded :
    (c : CandidateMatch) (t : Trace) (p : CompiledPattern) (r : GroundingResult) (i : ℕ)
    (decl : CompiledEvidence)
    → ground_candidate c t p ≡ ok r
    → r.status ≡ grounded
    → get_elem? p.evidence i ≡ some decl
    → decl.requiredness ≡ required
    → (analyzed : List (EvidenceRef × Polarity)) × (fact : Option FactRef) × (analyze p.constraint
        ≡ ok analyzed)
      × IsBacked
          (evaluate t (build_index t) decl.predicate)
          (polarity_of analyzed (saturate_u32 i))
          (fact_for c (saturate_u32 i))
          fact
      × IsConfirmed (verify_sequence t p r.evidence_chain)
      × IsConfirmed (verify_same_call t p r.evidence_chain)
unfolding ground_candidate verify_all_evidence
ground_candidate-grounded c t p r i decl h is_grounded at needed =
    let run = ground_with-Run default_verifiers c t p r h in
    let chain_grounded : (result_of t p run.chain).status ≡ grounded =
      ap (λ (r : GroundingResult). r.status) (sym run.result) ∙ is_grounded in
    let (entries, sequence, same_call) = required-IsVerified t p run.chain chain_grounded in
    let same_chain : r.evidence_chain ≡ run.chain =
      ap (λ (r : GroundingResult). r.evidence_chain) run.result ∙ result_of-chain t p run.chain in
    let e = saturate_u32 i in
    let polarity = polarity_of run.analyzed e in
    let (o, verification, entry) =
      verify_from-entry default_verifiers t (build_index t) c run.analyzed 0 p.evidence run.chain i
        i decl (omega arith) run.verification at in
    let listed = get_elem?-Member run.chain i (entry_for e decl polarity o) entry in
    let outcome = entries (entry_for e decl polarity o) listed (ap is_required needed) in
    (
      run.analyzed,
      o.fact,
      run.analysis,
      verify_one-IsBacked default_verifiers t (build_index t) decl polarity (fact_for c e) o
          default_verifiers-AllDefault verification outcome,
      rw same_chain sequence,
      rw same_chain same_call,
    )
