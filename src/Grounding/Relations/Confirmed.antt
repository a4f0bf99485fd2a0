-- ===== src/Grounding/Relations/Confirmed.antt =====
-- What a confirmed same-call relation says of the verified facts.
use rootcause.Prelude.{
  ◌≡◌, refl, sym, ap, ◌∙◌, ◌≢◌, ◌⊎◌, inl, inr, Bool, true, false, Option, none, some, List, [], ◌∷◌,
  ok, err, >>=-eq-ok, >>=-eq-err, Result-cases, ◌==◌, nat_Eq, nat_eq_iff, head?, Member,
  Option-cases, &&_iff,
}
use rootcause.Facts.Types.{FactRef, CallId}
use rootcause.Facts.Trace.{Trace}
use rootcause.Dsl.Ir.{EvidenceRef, CompiledSameCall, CompiledPattern}
use rootcause.Matcher.Identity.{producing_call}
use rootcause.Grounding.Status.{
  EvidenceOutcome, verified, failed, unavailable, unsupported, EvidenceVerification,
}
use rootcause.Grounding.Relations.{
  entry_of, verified_fact, outcome_of, call_of, member_calls, all_same, same_call_outcome,
  verify_same_call,
}

-- The clause is verified in the chain, and this is the first fact of its entry.
abbrev pub HasVerifiedFact : List EvidenceVerification → EvidenceRef → FactRef → Type 0
HasVerifiedFact chain e f =
    (entry : EvidenceVerification) × (entry_of chain e ≡ some entry)
    × (entry.outcome ≡ verified)
    × (head? entry.facts ≡ some f)

Outcome-cases :
    (o : EvidenceOutcome) → (o ≡ verified) ⊎ (o ≡ failed) ⊎ (o ≡ unavailable) ⊎ (o ≡ unsupported)
Outcome-cases verified = inl refl
Outcome-cases failed = inr (inl refl)
Outcome-cases unavailable = inr (inr (inl refl))
Outcome-cases unsupported = inr (inr (inr refl))

pub verified_fact_sound :
    (chain : List EvidenceVerification) (e : EvidenceRef) (f : FactRef)
    → verified_fact (entry_of chain e) ≡ ok f
    → HasVerifiedFact chain e f
unfolding verified_fact
verified_fact_sound chain e f h = elim (Option-cases (entry_of chain e)) [
  | inl absent ↦ absurd (let stuck = rw (absent, verified_fact) at h in cc)
  | inr (entry, there) ↦ elim (Outcome-cases entry.outcome) [
    | inl v ↦ elim (Option-cases (head? entry.facts)) [
      | inl empty ↦ absurd (let stuck = rw (there, v, empty, verified_fact) at h in cc)
      | inr (g, first) ↦
          let same : g ≡ f = (let done = rw (there, v, first, verified_fact) at h in cc) in
          (entry, there, v, first ∙ ap some same)
    ]
    | inr other ↦ absurd (elim other [
      | inl v ↦ let stuck = rw (there, v, verified_fact) at h in cc
      | inr rest ↦ elim rest [
        | inl v ↦ let stuck = rw (there, v, verified_fact) at h in cc
        | inr v ↦ let stuck = rw (there, v, verified_fact) at h in cc
      ]
    ])
  ]
]

-- The clause is verified by a fact that the call produced.
abbrev pub IsProducedBy : Trace → List EvidenceVerification → CallId → EvidenceRef → Type 0
IsProducedBy t chain id e =
    (f : FactRef) × HasVerifiedFact chain e f × (producing_call t f ≡ some id)

call_of-ok : (o : Option CallId) (id : CallId) → call_of o ≡ ok id → o ≡ some id
unfolding call_of
call_of-ok none id h = absurd (cc)
call_of-ok (some j) id h = cc

member_calls_sound :
    (t : Trace) (chain : List EvidenceVerification) (members : List EvidenceRef) (ids : List CallId)
    (e : EvidenceRef)
    → member_calls t chain members ≡ ok ids
    → Member e members
    → (id : CallId) × Member id ids × IsProducedBy t chain id e
unfolding member_calls
member_calls_sound t chain [] ids e h mem = absurd mem
member_calls_sound t chain (d ∷ members) ids e h mem =
    let (f, fact, h1) = >>=-eq-ok (verified_fact (entry_of chain d)) _ h in
    let (id, produced, h2) = >>=-eq-ok (call_of (producing_call t f)) _ h1 in
    let (rest, later, h3) = >>=-eq-ok (member_calls t chain members) _ h2 in
    let same : id ∷ rest ≡ ids = cc in
    elim mem [
      | inl here ↦ (
        id,
        rw (← same) (inl refl),
        (
          f,
          rw here (verified_fact_sound chain d f fact),
          call_of-ok (producing_call t f) id produced,
        ),
      )
      | inr there ↦
          let (other, listed, by) = member_calls_sound t chain members rest e later there in
          (other, rw (← same) (inr listed), by)
    ]

all_same-head :
    (a : CallId) (ids : List CallId) (x : CallId)
    → all_same (a ∷ ids) ≡ true
    → Member x (a ∷ ids)
    → x ≡ a
unfolding all_same
all_same-head a ids x h (inl e) = e
all_same-head a [] x h (inr m) = absurd m
all_same-head a (b ∷ ids) x h (inr m) =
    let (first, rest) = (&&_iff (a == b) (all_same (b ∷ ids))).0 h in
    all_same-head b ids x rest m ∙ sym ((nat_eq_iff a b).0 first)

all_same-Member :
    (ids : List CallId) (x y : CallId) → all_same ids ≡ true → Member x ids → Member y ids → x ≡ y
all_same-Member [] x y h mx my = absurd mx
all_same-Member (a ∷ ids) x y h mx my =
    all_same-head a ids x h mx ∙ sym (all_same-head a ids y h my)

pub outcome_of-verified : (b : Bool) → outcome_of b ≡ verified → b ≡ true
outcome_of-verified true h = refl
outcome_of-verified false h = cc

-- An early return is never the verdict `verified`.
pub verified_fact_early :
    (chain : List EvidenceVerification) (e : EvidenceRef) (o : EvidenceOutcome)
    → verified_fact (entry_of chain e) ≡ err o
    → o ≢ verified
unfolding verified_fact
verified_fact_early chain e o h v = elim (Option-cases (entry_of chain e)) [
  | inl absent ↦ (let done = rw (absent, verified_fact) at h in cc)
  | inr (entry, there) ↦ elim (Outcome-cases entry.outcome) [
    | inl w ↦ elim (Option-cases (head? entry.facts)) [
      | inl empty ↦ (let done = rw (there, w, empty, verified_fact) at h in cc)
      | inr (g, first) ↦ (let done = rw (there, w, first, verified_fact) at h in cc)
    ]
    | inr other ↦ elim other [
      | inl w ↦ (let done = rw (there, w, verified_fact) at h in cc)
      | inr rest ↦ elim rest [
        | inl w ↦ (let done = rw (there, w, verified_fact) at h in cc)
        | inr w ↦ (let done = rw (there, w, verified_fact) at h in cc)
      ]
    ]
  ]
]

call_of_early : (c : Option CallId) (o : EvidenceOutcome) → call_of c ≡ err o → o ≢ verified
unfolding call_of
call_of_early none o h v = cc
call_of_early (some c) o h v = cc

member_calls_early :
    (t : Trace) (chain : List EvidenceVerification) (members : List EvidenceRef)
    (o : EvidenceOutcome)
    → member_calls t chain members ≡ err o
    → o ≢ verified
unfolding member_calls
member_calls_early t chain [] o h v = cc
member_calls_early t chain (d ∷ members) o h v =
    elim (>>=-eq-err (verified_fact (entry_of chain d)) _ o h) [
      | inl early ↦ verified_fact_early chain d o early v
      | inr (f, _, h1) ↦ elim (>>=-eq-err (call_of (producing_call t f)) _ o h1) [
        | inl early ↦ call_of_early (producing_call t f) o early v
        | inr (id, _, h2) ↦ elim (>>=-eq-err (member_calls t chain members) _ o h2) [
          | inl early ↦ member_calls_early t chain members o early v
          | inr (rest, _, h3) ↦ (cc)
        ]
      ]
    ]

-- If `verify_same_call` confirms the pattern's same-call group, then any two members of it are
-- verified clauses of the chain, and one call produced the first facts of both.
pub verify_same_call-verified :
    (t : Trace) (p : CompiledPattern) (chain : List EvidenceVerification)
    (same_call : CompiledSameCall) (d e : EvidenceRef)
    → p.same_call ≡ some same_call
    → verify_same_call t p chain ≡ some verified
    → Member d same_call.members
    → Member e same_call.members
    → (target : CallId) × IsProducedBy t chain target d × IsProducedBy t chain target e
unfolding verify_same_call same_call_outcome
verify_same_call-verified t p chain g d e group h md me =
    let confirmed : same_call_outcome t chain g ≡ verified =
      (let done = rw (group, verify_same_call) at h in cc) in
    elim (Result-cases (member_calls t chain g.members)) [
      | inr (early, left) ↦ absurd (
          member_calls_early t chain g.members early left
            (rw (left, same_call_outcome) at confirmed))
      | inl (ids, calls) ↦
          let together =
            outcome_of-verified (all_same ids) (rw (calls, same_call_outcome) at confirmed) in
          let (x, mx, by_x) = member_calls_sound t chain g.members ids d calls md in
          let (y, my, by_y) = member_calls_sound t chain g.members ids e calls me in
          (x, by_x, rw (all_same-Member ids x y together mx my) by_y)
    ]
