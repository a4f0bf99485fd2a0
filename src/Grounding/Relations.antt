-- ===== src/Grounding/Relations.antt =====
-- crates/grounding/src/engine.rs, `verify_sequence` and `verify_same_call`: the relations between
-- clauses, from the chain of verified evidence.
pub mod Confirmed
pub mod Ordered
use rootcause.Prelude.{
  ℕ, Bool, true, false, ◌&&◌, Option, none, some, List, [], ◌∷◌, Result, ok, err, ◌>>=◌, ltb, ◌==◌,
  nat_Eq, find, head?, if◌then◌else◌,
}
use rootcause.Facts.Types.{FactRef, CallId}
use rootcause.Facts.Trace.{Trace}
use rootcause.Dsl.Ir.{EvidenceRef, CompiledSequence, CompiledSameCall, CompiledPattern}
use rootcause.Matcher.Identity.{producing_call, order_key}
use rootcause.Grounding.Status.{
  EvidenceOutcome, verified, failed, unavailable, unsupported, EvidenceVerification,
}

-- The first entry of a clause.
pub entry_of : List EvidenceVerification → EvidenceRef → Option EvidenceVerification
entry_of chain e = find (λ (x : EvidenceVerification). x.evidence == e) chain

-- The fact of a verified clause, or the outcome with which the source returns early.
pub verified_fact : Option EvidenceVerification → Result EvidenceOutcome FactRef
verified_fact none = err unsupported
verified_fact (some e) = elim e.outcome [
  | verified ↦ elim (head? e.facts) [ none ↦ err unsupported | some f ↦ ok f ]
  | unavailable ↦ err unavailable
  | unsupported ↦ err unsupported
  | failed ↦ err failed
]

sequence_keys :
    Trace → List EvidenceVerification → List EvidenceRef → Result EvidenceOutcome (List (Option ℕ))
unfolding verified_fact entry_of order_key
sequence_keys t chain [] = ok []
sequence_keys t chain (step ∷ steps) = do
  fact ← verified_fact (entry_of chain step)
  rest ← sequence_keys t chain steps
  ok (order_key t fact ∷ rest)

-- The loop over the keys that are there.
ascending : Option ℕ → List (Option ℕ) → Bool
ascending lower_bound [] = true
ascending lower_bound (none ∷ keys) = ascending lower_bound keys
ascending none (some k ∷ keys) = ascending (some k) keys
ascending (some bound) (some k ∷ keys) =
    let rest = ascending (some k) keys in if ltb k bound then false else rest

abbrev pub outcome_of : Bool → EvidenceOutcome
outcome_of true = verified
outcome_of false = failed

sequence_outcome : Trace → List EvidenceVerification → CompiledSequence → EvidenceOutcome
unfolding sequence_keys ascending
sequence_outcome t chain sequence = elim (sequence_keys t chain sequence.steps) [
  | err early ↦ early
  | ok keys ↦ outcome_of (ascending none keys)
]

unfoldable pub verify_sequence :
    Trace → CompiledPattern → List EvidenceVerification → Option EvidenceOutcome
unfolding sequence_outcome
verify_sequence t p chain = elim p.sequence [
  | none ↦ none
  | some sequence ↦ some (sequence_outcome t chain sequence)
]

call_of : Option CallId → Result EvidenceOutcome CallId
call_of none = err unavailable
call_of (some id) = ok id

member_calls :
    Trace → List EvidenceVerification → List EvidenceRef → Result EvidenceOutcome (List CallId)
unfolding verified_fact entry_of producing_call call_of
member_calls t chain [] = ok []
member_calls t chain (member ∷ members) = do
  fact ← verified_fact (entry_of chain member)
  id ← call_of (producing_call t fact)
  rest ← member_calls t chain members
  ok (id ∷ rest)

-- `windows(2).all(|pair| pair[0] == pair[1])`
all_same : List CallId → Bool
all_same [] = true
all_same (a ∷ []) = true
all_same (a ∷ b ∷ ids) = a == b && all_same (b ∷ ids)

same_call_outcome : Trace → List EvidenceVerification → CompiledSameCall → EvidenceOutcome
unfolding member_calls all_same
same_call_outcome t chain same_call = elim (member_calls t chain same_call.members) [
  | err early ↦ early
  | ok ids ↦ outcome_of (all_same ids)
]

unfoldable pub verify_same_call :
    Trace → CompiledPattern → List EvidenceVerification → Option EvidenceOutcome
unfolding same_call_outcome
verify_same_call t p chain = elim p.same_call [
  | none ↦ none
  | some same_call ↦ some (same_call_outcome t chain same_call)
]
