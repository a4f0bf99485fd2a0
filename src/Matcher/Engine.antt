-- ===== src/Matcher/Engine.antt =====
-- crates/matcher/src/engine.rs: candidates from the anchor occurrences of a pattern.
pub mod Bounds
pub mod Built
pub mod Sound
pub mod Complete
use rootcause.Prelude.{
  ℕ, Bool, true, false, not, ◌||◌, Option, none, some, List, [], ◌∷◌, ◌++◌, map, String, Result, ok,
  err, ◌>>◌, ◌>>=◌, try_for_each, ltb, ◌==◌, nat_Eq, lookup, insert, map_insert, contains_key, set,
  head?, is_empty, get_elem?, length, if◌then◌else◌,
}
use rootcause.Prelude.Sort.{sort_by_key}
use rootcause.Facts.Arena.{saturate_u32}
use rootcause.Facts.Trace.{Trace}
use rootcause.Dsl.Ir.{
  EvidenceRef, CompiledEvidence, CompiledConstraint, Items, evidence, and_of, or_of, not_of, nil,
  cons, CompiledSequence, CompiledSameCall, CompiledPattern,
}
use rootcause.Matcher.Binding.{
  Binding, EvidenceBinding, UnresolvedAttribute, MatchMetadata, CandidateMatch, MatcherError,
  dangling_evidence_ref,
}
use rootcause.Matcher.Constraint.{holds, positive_leaves}
use rootcause.Matcher.Sequence.{resolve}
use rootcause.Matcher.Index.{TraceIndex, build_index}
use rootcause.Matcher.Predicate.{evaluate}
use rootcause.Matcher.SameCall.{Bindings, matches_at, resolve_same_call}

-- The closure `check` of `check_in_bounds`.
pub check : CompiledPattern → EvidenceRef → Result MatcherError (Unit {0})
check p r = if ltb r (length p.evidence) then ok tt else err (dangling_evidence_ref p.id r)

unfoldable mutual
  unfolding check

  pub check_constraint_refs : CompiledConstraint → CompiledPattern → Result MatcherError (Unit {0})
  check_constraint_refs (evidence r) p = check p r
  check_constraint_refs (and_of items) p = check_items items p
  check_constraint_refs (or_of items) p = check_items items p
  check_constraint_refs (not_of c) p = check_constraint_refs c p

  pub check_items : Items → CompiledPattern → Result MatcherError (Unit {0})
  check_items nil p = ok tt
  check_items (cons c cs) p = check_constraint_refs c p >> check_items cs p

abbrev pub steps_of : Option CompiledSequence → List EvidenceRef
steps_of none = []
steps_of (some seq) = seq.steps

abbrev pub members_of : Option CompiledSameCall → List EvidenceRef
members_of none = []
members_of (some same_call) = same_call.members

pub check_in_bounds : CompiledPattern → Result MatcherError (Unit {0})
unfolding check_constraint_refs check
check_in_bounds p =
    check_constraint_refs p.constraint p
    >> (try_for_each (check p) (steps_of p.sequence)
        >> try_for_each (check p) (members_of p.same_call))

-- The trigger clause: the sequence's first step, or else the first positive leaf.
unfoldable pub anchor_index : CompiledPattern → Option ℕ
unfolding positive_leaves
anchor_index p = elim p.sequence [
  | some seq ↦ head? seq.steps
  | none ↦ head? (positive_leaves p.constraint)
]

-- `steps.iter().zip(resolved).collect()` into a map: a later pair replaces an earlier one.
collect_steps : List EvidenceRef → List Binding → Bindings → Bindings
collect_steps (s ∷ ss) (b ∷ bs) acc = collect_steps ss bs (map_insert s b acc)
collect_steps _ _ acc = acc

-- The sequence resolved from this very anchor occurrence.
pub resolve_sequence : Option CompiledSequence → List (List Binding) → ℕ → Binding → Option Bindings
unfolding resolve collect_steps
resolve_sequence none m anchor_idx anchor_binding = some []
resolve_sequence (some seq) m anchor_idx anchor_binding =
    elim (resolve seq (set m anchor_idx (anchor_binding ∷ []))) [
      | none ↦ none
      | some resolved ↦ some (collect_steps seq.steps resolved [])
    ]

abbrev pub has_match : List (List Binding) → ℕ → Bindings → EvidenceRef → Bool
has_match m anchor_idx sequence_bindings idx =
    idx == anchor_idx || contains_key sequence_bindings idx || not (is_empty (matches_at m idx))

pub same_call_bindings :
    Trace → CompiledPattern → List (List Binding) → ℕ → Binding → Bindings → Option Bindings
unfolding resolve_same_call
same_call_bindings t p m anchor_idx anchor_binding sequence_bindings = elim p.same_call [
  | none ↦ some []
  | some same_call ↦ resolve_same_call t same_call m anchor_idx anchor_binding sequence_bindings
]

abbrev pub keys : Bindings → List ℕ
keys [] = []
keys ((i, b) ∷ m) = i ∷ keys m

abbrev pub extend : List ℕ → List ℕ → List ℕ
extend [] known = known
extend (i ∷ is) known = extend is (insert i known)

-- The set `referenced`, as a list with no repetition.
pub referenced : CompiledPattern → ℕ → Bindings → Bindings → List ℕ
unfolding positive_leaves
referenced p anchor_idx sequence_bindings same_calls =
    extend (keys same_calls) (
      extend (keys sequence_bindings)
        (insert anchor_idx (extend (positive_leaves p.constraint) [])))

-- The binding that a referenced clause gets, if it gets one.
pub choose : List (List Binding) → ℕ → Binding → Bindings → Bindings → ℕ → Option Binding
choose m anchor_idx anchor_binding sequence_bindings same_calls idx =
    if idx == anchor_idx then some anchor_binding else elim (lookup idx sequence_bindings) [
      | some b ↦ some b
      | none ↦ elim (lookup idx same_calls) [ some b ↦ some b | none ↦ head? (matches_at m idx) ]
    ]

abbrev pub not_filtered : String
not_filtered =
    "this attribute describes a semantic classification with no corresponding structural fact in fact-model; matcher did not filter on it"

-- The loop over `referenced`: a clause with no binding is skipped.
bind_all : (ℕ → Option Binding) → List ℕ → List EvidenceBinding
bind_all choice [] = []
bind_all choice (idx ∷ rest) = elim (choice idx) [
  | none ↦ bind_all choice rest
  | some b ↦ record { evidence = saturate_u32 idx; fact = b.fact } ∷ bind_all choice rest
]

attributes_of : EvidenceRef → List String → List UnresolvedAttribute
attributes_of e = map (λ a. record { evidence = e; attribute = a; reason = not_filtered })

unresolved_all : (ℕ → Option Binding) → List ℕ → List UnresolvedAttribute
unfolding attributes_of
unresolved_all choice [] = []
unresolved_all choice (idx ∷ rest) = elim (choice idx) [
  | none ↦ unresolved_all choice rest
  | some b ↦ attributes_of (saturate_u32 idx) b.unresolved_attrs ++ unresolved_all choice rest
]

abbrev pub is_some {ℓ} : {A : Type ℓ} → Option A → Bool
is_some none = false
is_some (some a) = true

-- The candidate with these bindings, sorted by clause.
pub candidate_of : CompiledPattern → (ℕ → Option Binding) → List ℕ → CandidateMatch
unfolding bind_all unresolved_all
candidate_of p choice indices = record {
  pattern_id = p.id;
  pattern_version = p.version;
  pattern_family = p.family;
  pattern_severity = p.severity;
  bindings = sort_by_key (λ (b : EvidenceBinding). b.evidence) (bind_all choice indices);
  metadata = record {
    unresolved_attributes =
        sort_by_key (λ (u : UnresolvedAttribute). u.evidence) (unresolved_all choice indices);
    sequence_checked = is_some p.sequence;
  };
}

unfoldable pub try_build_candidate :
    Trace → CompiledPattern → List (List Binding) → ℕ → Binding → Option CandidateMatch
unfolding resolve_sequence holds same_call_bindings referenced choose candidate_of
try_build_candidate t p m anchor_idx anchor_binding =
    elim (resolve_sequence p.sequence m anchor_idx anchor_binding) [
      | none ↦ none
      | some sequence_bindings ↦
          if holds p.constraint (has_match m anchor_idx sequence_bindings)
          then elim (same_call_bindings t p m anchor_idx anchor_binding sequence_bindings) [
            | none ↦ none
            | some same_calls ↦ some (
                candidate_of p (choose m anchor_idx anchor_binding sequence_bindings same_calls)
                  (referenced p anchor_idx sequence_bindings same_calls))
          ]
          else none
    ]

abbrev pub is_present : List (List Binding) → EvidenceRef → Bool
is_present m idx = not (is_empty (matches_at m idx))

-- A pattern with no positive clause matches once, with no bindings, or not at all.
unfoldable pub global_candidate : CompiledPattern → List (List Binding) → Option CandidateMatch
unfolding holds candidate_of
global_candidate p m =
    if holds p.constraint (is_present m) then some (candidate_of p (λ i. none) []) else none

-- Phase 1: every clause's predicate is evaluated once.
unfoldable pub evidence_matches : Trace → TraceIndex → CompiledPattern → List (List Binding)
unfolding evaluate
evidence_matches t index p =
    map (λ (ev : CompiledEvidence). evaluate t index ev.predicate) p.evidence

pub candidates_from :
    Trace → CompiledPattern → List (List Binding) → ℕ → List Binding → List CandidateMatch
unfolding try_build_candidate
candidates_from t p m anchor_idx [] = []
candidates_from t p m anchor_idx (b ∷ bs) = elim (try_build_candidate t p m anchor_idx b) [
  | none ↦ candidates_from t p m anchor_idx bs
  | some c ↦ c ∷ candidates_from t p m anchor_idx bs
]

abbrev pub to_list {ℓ} : {A : Type ℓ} → Option A → List A
to_list none = []
to_list (some a) = a ∷ []

pub candidates : Trace → CompiledPattern → List (List Binding) → List CandidateMatch
unfolding anchor_index candidates_from global_candidate
candidates t p m = elim (anchor_index p) [
  | none ↦ to_list (global_candidate p m)
  | some anchor_idx ↦ candidates_from t p m anchor_idx (matches_at m anchor_idx)
]

unfoldable pub find_candidates :
    Trace → TraceIndex → CompiledPattern → Result MatcherError (List CandidateMatch)
unfolding check_in_bounds evidence_matches candidates
find_candidates t index p = check_in_bounds p >> ok (candidates t p (evidence_matches t index p))

-- lib.rs `MatchEngine::find_all_matches`: the candidates of each pattern in turn, or the first error.
unfoldable pub find_all_matches :
    Trace → TraceIndex → List CompiledPattern → Result MatcherError (List CandidateMatch)
unfolding find_candidates
find_all_matches t index [] = ok []
find_all_matches t index (p ∷ ps) = do
  found ← find_candidates t index p
  rest ← find_all_matches t index ps
  ok (found ++ rest)

-- lib.rs `find_candidate_matches`
unfoldable pub find_candidate_matches :
    Trace → CompiledPattern → Result MatcherError (List CandidateMatch)
unfolding find_candidates build_index
find_candidate_matches t p = find_candidates t (build_index t) p
