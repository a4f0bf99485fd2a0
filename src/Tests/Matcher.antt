-- ===== src/Tests/Matcher.antt =====
-- The matcher's theorems at the trace and the pattern of Data.
use rootcause.Prelude.{
  ℕ, suc, ◌≡◌, ◌<◌, refl, ◌↔◌, inl, Bool, true, false, none, some, List, [], ◌∷◌, length, get_elem?,
  map, Member, ok, arith, string_Eq, nat_Eq,
}
use rootcause.Facts.Types.{CallId, call_ref, token_transfer_ref}
use rootcause.Facts.Arena.{call, storage_change}
use rootcause.Dsl.Ir.{CompiledEvidence, CompiledPredicate, CompiledPattern}
use rootcause.Matcher.Binding.{Binding, EvidenceBinding, CandidateMatch}
use rootcause.Matcher.Constraint.{holds, positive_leaves}
use rootcause.Matcher.Constraint.Polarity.{Occurs, positive_leaves_iff}
use rootcause.Matcher.Identity.{producing_call, order_key, order_key-eq-producing_call}
use rootcause.Matcher.Index.{build_index, is_reentrant, index_call}
use rootcause.Matcher.Index.Calls.{index_call-eq-call}
use rootcause.Matcher.Index.Reentrancy.{Reenters, is_reentrant_iff}
use rootcause.Matcher.Ancestry.{ancestor_loop, has_ancestor_of_kind}
use rootcause.Matcher.Ancestry.Chain.{AncestorOfKind, has_ancestor_of_kind_iff}
use rootcause.Matcher.Hex.{show_hex, parse_hex_word, parse_address, parse_hex, strip_0x}
use rootcause.Matcher.Hex.RoundTrip.{
  parse_hex_word-show_hex, parse_address-show_hex, lower, show_hex-parse_hex,
}
use rootcause.Matcher.Sequence.{resolve}
use rootcause.Matcher.Sequence.Greedy.{Chosen, Ascending, resolve-Ascending, resolve_complete}
use rootcause.Matcher.SameCall.{Bindings, resolve_same_call, matches_at}
use rootcause.Matcher.SameCall.Origin.{FromMatches, BindsAll, ProducedBy}
use rootcause.Matcher.SameCall.Correlated.{resolve_same_call-Correlated}
use rootcause.Matcher.Predicate.{evaluate}
use rootcause.Matcher.Predicate.Positioned.{Chronological, evaluate-Chronological}
use rootcause.Matcher.Engine.Complete.{Reports, find_candidates-Reports}
use rootcause.Matcher.Engine.{anchor_index, find_candidates, evidence_matches, is_present}
use rootcause.Matcher.Engine.Bounds.{InBounds, find_candidates-ok_iff}
use rootcause.Matcher.Engine.Sound.{find_candidates-holds, find_candidates-cites}
use rootcause.Tests.Data.{
  reentrant_trace, reentrancy, reentrancy_candidate, reentrancy_matches, callback_binding,
  write_binding, write_follows_reentry, write_in_reentry, reentrant-WellFormed, reentrant-IsIndexed,
  reentry_frame, word_of, address_of, reentrant-found,
}

abbrev first_binding : EvidenceBinding
first_binding = record { evidence = 0; fact = call_ref 2 }

find_candidates-holds_example :
    holds reentrancy.constraint
      (is_present (evidence_matches reentrant_trace (build_index reentrant_trace) reentrancy))
    ≡ true
find_candidates-holds_example =
    find_candidates-holds reentrant_trace (build_index reentrant_trace) reentrancy
      (reentrancy_candidate ∷ []) reentrancy_candidate reentrant-found (inl refl)

find_candidates-cites_example :
    (ev : CompiledEvidence) × (b : Binding) × (get_elem? reentrancy.evidence 0 ≡ some ev)
    × Member b (evaluate reentrant_trace (build_index reentrant_trace) ev.predicate)
    × (call_ref 2 ≡ b.fact)
find_candidates-cites_example =
    find_candidates-cites reentrant_trace (build_index reentrant_trace) reentrancy
      (reentrancy_candidate ∷ []) reentrancy_candidate first_binding (omega arith) reentrant-found
      (inl refl) (inl refl)

find_candidates-ok_iff_example :
    ((cs : List CandidateMatch) × (find_candidates reentrant_trace
          (build_index reentrant_trace)
          reentrancy
        ≡ ok cs))
    ↔ InBounds reentrancy
find_candidates-ok_iff_example =
    find_candidates-ok_iff reentrant_trace (build_index reentrant_trace) reentrancy

abbrev any_call : CompiledPredicate
any_call = record { kind = "call"; attributes = [] }

abbrev root_binding : Binding
root_binding = record { fact = call_ref 0; order = some 0; unresolved_attrs = [] }

first_call-found :
    get_elem? (evaluate reentrant_trace (build_index reentrant_trace) any_call) 0
    ≡ some root_binding
unfolding evaluate build_index
first_call-found = refl

last_call-found :
    get_elem? (evaluate reentrant_trace (build_index reentrant_trace) any_call) 2
    ≡ some callback_binding
unfolding evaluate build_index
last_call-found = refl

evaluate-Chronological_example : Chronological reentrant_trace root_binding callback_binding
evaluate-Chronological_example =
    evaluate-Chronological reentrant_trace (build_index reentrant_trace) any_call 0 2 root_binding
      callback_binding reentrant-WellFormed reentrant-IsIndexed (omega arith) first_call-found
      last_call-found

order_key-eq-producing_call_example :
    (id : CallId) × (producing_call reentrant_trace (token_transfer_ref 0) ≡ some id)
    × (order_key reentrant_trace (token_transfer_ref 0) ≡ some id)
    × (id < length reentrant_trace.arena.calls)
order_key-eq-producing_call_example =
    order_key-eq-producing_call reentrant_trace (token_transfer_ref 0) reentrant-WellFormed
      reentrant-IsIndexed.call_ids (omega arith)

is_reentrant_iff_example :
    (is_reentrant (build_index reentrant_trace) 2 ≡ true) ↔ Reenters reentrant_trace.arena.calls 2
is_reentrant_iff_example =
    is_reentrant_iff reentrant_trace 2 reentrant-WellFormed reentrant-IsIndexed.call_ids

reentry-there : call reentrant_trace.arena 2 ≡ some reentry_frame
unfolding call
reentry-there = refl

index_call-eq-call_example : index_call (build_index reentrant_trace) 2 ≡ some reentry_frame
index_call-eq-call_example =
    index_call-eq-call reentrant_trace 2 reentry_frame reentrant-IsIndexed.call_ids reentry-there

has_ancestor_of_kind_iff_example :
    ((b : Bool) × (ancestor_loop
          (suc (length reentrant_trace.arena.calls))
          reentrant_trace.arena
          "External"
          reentry_frame.parent
        ≡ some b))
    × ((has_ancestor_of_kind reentrant_trace 2 "External" ≡ true)
        ↔ AncestorOfKind reentrant_trace.arena "External" 2)
has_ancestor_of_kind_iff_example =
    has_ancestor_of_kind_iff reentrant_trace 2 "External" reentry_frame reentrant-WellFormed
      reentrant-IsIndexed.call_ids reentry-there

parse_hex_word-show_hex_example : parse_hex_word (show_hex (word_of 254)) ≡ some (word_of 254)
parse_hex_word-show_hex_example = parse_hex_word-show_hex (word_of 254) refl (ground arith)

parse_address-show_hex_example : parse_address (show_hex (address_of 19)) ≡ some (address_of 19)
parse_address-show_hex_example = parse_address-show_hex (address_of 19) refl (ground arith)

-- The text 0x0aFf.
abbrev two_bytes : List ℕ
two_bytes = 48 ∷ 120 ∷ 48 ∷ 97 ∷ 70 ∷ 102 ∷ []

abbrev parsed_bytes : List ℕ
parsed_bytes = 10 ∷ 255 ∷ []

two_bytes-parse : parse_hex 2 two_bytes ≡ some parsed_bytes
unfolding parse_hex
two_bytes-parse = refl

show_hex-parse_hex_example : show_hex parsed_bytes ≡ b'0' ∷ b'x' ∷ map lower (strip_0x two_bytes)
show_hex-parse_hex_example = show_hex-parse_hex 2 two_bytes parsed_bytes two_bytes-parse

positive_leaves_iff_example :
    Member 1 (positive_leaves reentrancy.constraint) ↔ Occurs 1 true reentrancy.constraint
positive_leaves_iff_example = positive_leaves_iff reentrancy.constraint 1

reentrancy-resolved :
    resolve write_follows_reentry reentrancy_matches ≡ some (callback_binding ∷ write_binding ∷ [])
unfolding resolve
reentrancy-resolved = refl

resolve-Ascending_example :
    Chosen reentrancy_matches (0 ∷ 1 ∷ []) (callback_binding ∷ write_binding ∷ [])
    × Ascending (callback_binding ∷ write_binding ∷ [])
resolve-Ascending_example =
    resolve-Ascending write_follows_reentry reentrancy_matches
      (callback_binding ∷ write_binding ∷ []) reentrancy-resolved

resolve_complete_example :
    (rs : List Binding) × (resolve write_follows_reentry reentrancy_matches ≡ some rs)
resolve_complete_example =
    resolve_complete write_follows_reentry reentrancy_matches
      (callback_binding ∷ write_binding ∷ []) ((tt, tt), ((tt, tt), (tt, tt)))
      resolve-Ascending_example.0 resolve-Ascending_example.1

-- Clause 0 is the anchor, and clause 1 takes its match from the same call.
abbrev correlated_bindings : Bindings
correlated_bindings = (0, callback_binding) ∷ (1, write_binding) ∷ []

reentrancy-correlated :
    resolve_same_call reentrant_trace write_in_reentry reentrancy_matches 0 callback_binding []
    ≡ some correlated_bindings
unfolding resolve_same_call storage_change
reentrancy-correlated = refl

no_bindings-FromMatches : FromMatches reentrancy_matches []
no_bindings-FromMatches idx b h = absurd (cc)

resolve_same_call-Correlated_example :
    FromMatches reentrancy_matches correlated_bindings
    × BindsAll (0 ∷ 1 ∷ []) correlated_bindings
    × (target : CallId) × ProducedBy reentrant_trace target correlated_bindings
resolve_same_call-Correlated_example =
    resolve_same_call-Correlated reentrant_trace write_in_reentry reentrancy_matches 0
      callback_binding [] correlated_bindings (inl refl) no_bindings-FromMatches
      reentrancy-correlated

-- The pattern with neither its sequence nor its group.
abbrev unordered_reentrancy : CompiledPattern
unordered_reentrancy = record reentrancy { sequence = none; same_call = none }

abbrev unordered_candidate : CandidateMatch
unordered_candidate = record reentrancy_candidate {
  metadata = record { unresolved_attributes = []; sequence_checked = false };
}

unordered-anchor : anchor_index unordered_reentrancy ≡ some 0
unfolding anchor_index
unordered-anchor = refl

unordered-found :
    find_candidates reentrant_trace (build_index reentrant_trace) unordered_reentrancy
    ≡ ok (unordered_candidate ∷ [])
unfolding find_candidates build_index
unordered-found = refl

callback-matched : Member callback_binding (
    matches_at
      (evidence_matches reentrant_trace (build_index reentrant_trace) unordered_reentrancy)
      0)
unfolding evidence_matches build_index
callback-matched = inl refl

unordered-holds :
    holds unordered_reentrancy.constraint (
      is_present
        (evidence_matches reentrant_trace (build_index reentrant_trace) unordered_reentrancy))
    ≡ true
unfolding holds evidence_matches build_index
unordered-holds = refl

find_candidates-Reports_example :
    (c : CandidateMatch) × Member c (unordered_candidate ∷ []) × Reports c 0 callback_binding
find_candidates-Reports_example =
    find_candidates-Reports reentrant_trace (build_index reentrant_trace) unordered_reentrancy
      (unordered_candidate ∷ []) 0 callback_binding refl refl unordered-anchor unordered-found
      unordered-holds callback-matched
