-- ===== src/Grounding/Relations/Ordered.antt =====
-- What a confirmed sequence says of the verified facts.
use rootcause.Prelude.{
  ℕ, zero, suc, ◌≤◌, ◌<◌, ◌≡◌, sym, ap, ◌∙◌, ◌≢◌, inl, inr, true, Option, none, some, List, [], ◌∷◌,
  ok, err, >>=-eq-ok, >>=-eq-err, Result-cases, ltb, nat_Eq, get_elem?, Bool-cases, arith,
}
use rootcause.Facts.Types.{FactRef}
use rootcause.Facts.Trace.{Trace}
use rootcause.Dsl.Ir.{EvidenceRef, CompiledSequence, CompiledPattern}
use rootcause.Matcher.Identity.{order_key}
use rootcause.Grounding.Status.{EvidenceOutcome, verified, EvidenceVerification}
use rootcause.Grounding.Relations.{
  entry_of, verified_fact, sequence_keys, ascending, sequence_outcome, verify_sequence,
}
use rootcause.Grounding.Relations.Confirmed.{
  HasVerifiedFact, verified_fact_sound, verified_fact_early, outcome_of-verified,
}

-- The orders of two verified facts, where both have one.
abbrev pub KeyNotAfter : Option ℕ → Option ℕ → Type 0
KeyNotAfter none k = Unit
KeyNotAfter (some j) none = Unit
KeyNotAfter (some j) (some k) = j ≤ k

ascending-cons :
    (bound : Option ℕ) (k : ℕ) (keys : List (Option ℕ))
    → ascending bound (some k ∷ keys) ≡ true
    → (ascending (some k) keys ≡ true) × KeyNotAfter bound (some k)
unfolding ascending
ascending-cons none k keys h = (h, tt)
ascending-cons (some b) k keys h = elim (Bool-cases (ltb k b)) [
  | inl below ↦ absurd (let stuck = rw (below, ascending) at h in cc)
  | inr above ↦ (rw (above, ascending) at h, ground arith)
]

-- Every later key is at least the bound.
ascending-bound :
    (b v : ℕ) (keys : List (Option ℕ)) (y : ℕ)
    → ascending (some b) keys ≡ true
    → get_elem? keys y ≡ some (some v)
    → b ≤ v
unfolding ascending
ascending-bound b v [] y h at = absurd (cc)
ascending-bound b v (none ∷ keys) zero h at =
    absurd (let stuck : ◌≡◌ {A = Option (Option ℕ)} (some none) (some (some v)) = at in cc)
ascending-bound b v (none ∷ keys) (suc y) h at = ascending-bound b v keys y h at
ascending-bound b v (some k ∷ keys) zero h at =
    let (_, low) = ascending-cons (some b) k keys h in let same : k ≡ v = cc in omega arith
ascending-bound b v (some k ∷ keys) (suc y) h at =
    let (rest, low) = ascending-cons (some b) k keys h in
    let later = ascending-bound k v keys y rest at in omega arith

ascending-pair :
    (bound : Option ℕ) (keys : List (Option ℕ)) (x y : ℕ) (u v : Option ℕ)
    → ascending bound keys ≡ true
    → x < y
    → get_elem? keys x ≡ some u
    → get_elem? keys y ≡ some v
    → KeyNotAfter u v
unfolding ascending
ascending-pair bound [] x y u v h before atx aty = absurd (cc)
ascending-pair bound (k ∷ keys) x zero u v h before atx aty = absurd (omega arith)
ascending-pair bound (none ∷ keys) zero (suc y) u v h before atx aty =
    let same : none ≡ u = cc in rw (← same) tt
ascending-pair bound (some k ∷ keys) zero (suc y) u none h before atx aty =
    let same : some k ≡ u = cc in rw (← same) tt
ascending-pair bound (some k ∷ keys) zero (suc y) u (some w) h before atx aty =
    let same : some k ≡ u = cc in
    let (rest, _) = ascending-cons bound k keys h in
    rw (← same) (ascending-bound k w keys y rest aty)
ascending-pair bound (none ∷ keys) (suc x) (suc y) u v h before atx aty =
    ascending-pair bound keys x y u v h (omega arith) atx aty
ascending-pair bound (some k ∷ keys) (suc x) (suc y) u v h before atx aty =
    let (rest, _) = ascending-cons bound k keys h in
    ascending-pair (some k) keys x y u v rest (omega arith) atx aty

-- The key of each step, at the step's place.
sequence_keys_sound :
    (t : Trace) (chain : List EvidenceVerification) (steps : List EvidenceRef)
    (keys : List (Option ℕ)) (x : ℕ) (e : EvidenceRef)
    → sequence_keys t chain steps ≡ ok keys
    → get_elem? steps x ≡ some e
    → (f : FactRef) × HasVerifiedFact chain e f × (get_elem? keys x ≡ some (order_key t f))
unfolding sequence_keys
sequence_keys_sound t chain [] keys x e h at = absurd (cc)
sequence_keys_sound t chain (d ∷ steps) keys zero e h at =
    let (f, fact, h1) = >>=-eq-ok (verified_fact (entry_of chain d)) _ h in
    let (rest, later, h2) = >>=-eq-ok (sequence_keys t chain steps) _ h1 in
    let same : order_key t f ∷ rest ≡ keys = cc in
    let here : d ≡ e = cc in
    (
      f,
      rw (← here) (verified_fact_sound chain d f fact),
      ap (λ (ks : List (Option ℕ)). get_elem? ks 0) (sym same),
    )
sequence_keys_sound t chain (d ∷ steps) keys (suc x) e h at =
    let (f, fact, h1) = >>=-eq-ok (verified_fact (entry_of chain d)) _ h in
    let (rest, later, h2) = >>=-eq-ok (sequence_keys t chain steps) _ h1 in
    let same : order_key t f ∷ rest ≡ keys = cc in
    let (g, gfact, key) = sequence_keys_sound t chain steps rest x e later at in
    (g, gfact, ap (λ (ks : List (Option ℕ)). get_elem? ks (suc x)) (sym same) ∙ key)

sequence_keys_early :
    (t : Trace) (chain : List EvidenceVerification) (steps : List EvidenceRef) (o : EvidenceOutcome)
    → sequence_keys t chain steps ≡ err o
    → o ≢ verified
unfolding sequence_keys
sequence_keys_early t chain [] o h v = cc
sequence_keys_early t chain (d ∷ steps) o h v =
    elim (>>=-eq-err (verified_fact (entry_of chain d)) _ o h) [
      | inl early ↦ verified_fact_early chain d o early v
      | inr (f, _, h1) ↦ elim (>>=-eq-err (sequence_keys t chain steps) _ o h1) [
        | inl early ↦ sequence_keys_early t chain steps o early v
        | inr (rest, _, h2) ↦ (cc)
      ]
    ]

-- If `verify_sequence` confirms the pattern's sequence, then of any two of its steps, each is
-- a verified clause of the chain, and the first fact of the later one does not come before that of
-- the earlier one, where both have a place in execution order.
pub verify_sequence-verified :
    (t : Trace) (p : CompiledPattern) (chain : List EvidenceVerification)
    (sequence : CompiledSequence) (x y : ℕ) (d e : EvidenceRef)
    → p.sequence ≡ some sequence
    → verify_sequence t p chain ≡ some verified
    → x < y
    → get_elem? sequence.steps x ≡ some d
    → get_elem? sequence.steps y ≡ some e
    → (f g : FactRef) × HasVerifiedFact chain d f
      × HasVerifiedFact chain e g
      × KeyNotAfter (order_key t f) (order_key t g)
unfolding verify_sequence sequence_outcome
verify_sequence-verified t p chain s x y d e ordered h before atx aty =
    let confirmed : sequence_outcome t chain s ≡ verified =
      (let done = rw (ordered, verify_sequence) at h in cc) in
    elim (Result-cases (sequence_keys t chain s.steps)) [
      | inr (early, left) ↦ absurd (
          sequence_keys_early t chain s.steps early left (rw (left, sequence_outcome) at confirmed))
      | inl (keys, found) ↦
          let up =
            outcome_of-verified (ascending none keys) (rw (found, sequence_outcome) at confirmed) in
          let (f, fact_f, key_f) = sequence_keys_sound t chain s.steps keys x d found atx in
          let (g, fact_g, key_g) = sequence_keys_sound t chain s.steps keys y e found aty in
          (
            f,
            g,
            fact_f,
            fact_g,
            ascending-pair none keys x y (order_key t f) (order_key t g) up before key_f key_g,
          )
    ]
