-- ===== src/Grounding/Verifier/Outcomes.antt =====
-- What each outcome of `verify_via_matcher_predicate` says of the trace.
use rootcause.Prelude.{
  ◌≡◌, refl, sym, ap, ◌⊎◌, inl, inr, true, false, Option, none, some, List, [], ◌∷◌, is_empty,
  Member, Bool-cases, ◌==◌,
}
use rootcause.Facts.Types.{FactRef, fact_Eq}
use rootcause.Facts.Trace.{Trace}
use rootcause.Dsl.Ir.{CompiledPredicate}
use rootcause.Matcher.Binding.{Binding}
use rootcause.Matcher.Index.{TraceIndex}
use rootcause.Matcher.Predicate.{evaluate}
use rootcause.Grounding.Aggregate.Verdict.{any_sound}
use rootcause.Grounding.Status.{verified, Polarity, positive, negative, unreferenced, is_negative}
use rootcause.Grounding.Verifier.{verify_bindings, check_cited, cites, verify_via_matcher_predicate}

-- The evidence for a clause of this sign: for a negated clause that nothing satisfies it, and
-- otherwise a fact that does, which is the cited one, if the candidate cites one.
abbrev pub IsBacked : List Binding → Polarity → Option FactRef → Option FactRef → Type 0
IsBacked bs polarity cited_fact fact =
    ((is_negative polarity ≡ true) × (bs ≡ []) × (fact ≡ none))
    ⊎ ((is_negative polarity ≡ false)
        × (b : Binding) × Member b bs
        × (fact ≡ some b.fact)
        × ((cited_fact ≡ none) ⊎ (cited_fact ≡ some b.fact)))

check_cited-IsBacked :
    (b : Binding) (bs : List Binding) (polarity : Polarity) (cited_fact : Option FactRef)
    → is_negative polarity ≡ false
    → (check_cited (b ∷ bs) cited_fact).outcome ≡ verified
    → IsBacked (b ∷ bs) polarity cited_fact (check_cited (b ∷ bs) cited_fact).fact
unfolding check_cited
check_cited-IsBacked b bs polarity none h v = inr (h, b, inl refl, refl, inl refl)
check_cited-IsBacked b bs polarity (some f) h v = elim (Bool-cases (cites (b ∷ bs) f)) [
  | inr other ↦ absurd (let stuck = rw (other, check_cited) at v in cc)
  | inl cited ↦
      let (d, mem, e) = any_sound (λ (b : Binding). b.fact == f) (b ∷ bs) cited in
      let same : d.fact ≡ f = (fact_Eq.eqb_iff d.fact f).0 e in
      inr (h, d, mem, rw (cited, check_cited) (ap some (sym same)), inr (ap some (sym same)))
]

verify_bindings-IsBacked :
    (bs : List Binding) (polarity : Polarity) (cited_fact : Option FactRef)
    → (verify_bindings bs polarity cited_fact).outcome ≡ verified
    → IsBacked bs polarity cited_fact (verify_bindings bs polarity cited_fact).fact
unfolding verify_bindings
verify_bindings-IsBacked [] negative cited_fact v = inl (refl, refl, refl)
verify_bindings-IsBacked [] positive cited_fact v = absurd (cc)
verify_bindings-IsBacked [] unreferenced cited_fact v = absurd (cc)
verify_bindings-IsBacked (b ∷ bs) polarity cited_fact v =
    elim (Bool-cases (is_empty b.unresolved_attrs)) [
      | inr unread ↦ absurd (let stuck = rw (unread, verify_bindings) at v in cc)
      | inl read ↦ elim (Bool-cases (is_negative polarity)) [
        | inl signed ↦ absurd (let stuck = rw (read, signed, verify_bindings) at v in cc)
        | inr signed ↦
            rw (read, signed, verify_bindings)
              (rw signed at (
                check_cited-IsBacked b bs polarity cited_fact signed
                  (rw (read, signed, verify_bindings) at v)))
      ]
    ]

-- A clause that the verifier reports verified is backed by this trace: a negated clause has no
-- match at all, and any other clause has a match, which the report names, and which is the fact
-- the candidate cites, if it cites one.
pub verify_via_matcher_predicate-IsBacked :
    (t : Trace) (index : TraceIndex) (p : CompiledPredicate) (polarity : Polarity)
    (cited_fact : Option FactRef)
    → (verify_via_matcher_predicate t index p polarity cited_fact).outcome ≡ verified
    → IsBacked
        (evaluate t index p)
        polarity
        cited_fact
        (verify_via_matcher_predicate t index p polarity cited_fact).fact
unfolding verify_via_matcher_predicate
verify_via_matcher_predicate-IsBacked t index p polarity cited_fact v =
    verify_bindings-IsBacked (evaluate t index p) polarity cited_fact v
