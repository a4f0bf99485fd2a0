-- ===== src/Matcher/SameCall.antt =====
-- crates/matcher/src/engine.rs, `resolve_same_call`: one producing call for a group of clauses.
--
-- A map from clause indices to bindings is an association list. The source iterates over such a map
-- in no fixed order; here the order is that of insertion. Reads `evidence_matches[idx]` follow the
-- bounds check of the engine, so that the list `[]` out of range is not met.
pub mod Origin
pub mod Correlated
use rootcause.Prelude.{
  ℕ, Bool, true, false, Option, none, some, List, [], ◌∷◌, leb, ltb, ◌==◌, nat_Eq, option_Eq,
  lookup, map_insert, contains_key, find, head?, get_elem?, if◌then◌else◌,
}
use rootcause.Facts.Types.{CallId}
use rootcause.Facts.Trace.{Trace}
use rootcause.Dsl.Ir.{EvidenceRef, CompiledSameCall}
use rootcause.Matcher.Binding.{Binding}
use rootcause.Matcher.Identity.{producing_call}

abbrev pub Bindings : Type 0
Bindings = List (ℕ × Binding)

abbrev pub matches_at : List (List Binding) → ℕ → List Binding
matches_at m idx = elim (get_elem? m idx) [ none ↦ [] | some bs ↦ bs ]

-- The members that the anchor or the sequence has bound already.
pub preset : ℕ → Binding → Bindings → List EvidenceRef → Bindings → Bindings
preset anchor_idx anchor_binding sequence_bindings [] resolved = resolved
preset anchor_idx anchor_binding sequence_bindings (idx ∷ members) resolved =
    preset anchor_idx anchor_binding sequence_bindings members (
      if idx == anchor_idx
      then map_insert idx anchor_binding resolved
      else elim (lookup idx sequence_bindings) [
        | none ↦ resolved
        | some b ↦ map_insert idx b resolved
      ])

-- The producing call that the bound members share: `none` is the early return of the source, which
-- a fact with no producing call or two different calls cause.
shared_call : Trace → Option CallId → Bindings → Option (Option CallId)
unfolding producing_call
shared_call t target [] = some target
shared_call t target ((idx, b) ∷ resolved) = elim (producing_call t b.fact) [
  | none ↦ none
  | some id ↦ elim target [
    | none ↦ shared_call t (some id) resolved
    | some existing ↦
        let rest = shared_call t (some existing) resolved in if existing == id then rest else none
  ]
]

-- `member_indices.iter().min()`
min_index : List ℕ → Option ℕ
min_index [] = none
min_index (i ∷ is) = elim (min_index is) [
  | none ↦ some i
  | some j ↦ some (if leb i j then i else j)
]

-- With no member bound, the first match of the least member decides the call.
pick_target : Trace → List EvidenceRef → List (List Binding) → Bindings → Option (CallId × Bindings)
unfolding min_index producing_call
pick_target t members m resolved = elim (min_index members) [
  | none ↦ none
  | some first_idx ↦ elim (head? (matches_at m first_idx)) [
    | none ↦ none
    | some b ↦ elim (producing_call t b.fact) [
      | none ↦ none
      | some id ↦ some (id, map_insert first_idx b resolved)
    ]
  ]
]

-- The other members take their first match that the target call produced.
pub fill : Trace → CallId → List (List Binding) → List EvidenceRef → Bindings → Option Bindings
unfolding producing_call
fill t target m [] resolved = some resolved
fill t target m (idx ∷ members) resolved =
    if contains_key resolved idx
    then fill t target m members resolved
    else elim (find (λ (b : Binding). producing_call t b.fact == some target) (matches_at m idx)) [
      | none ↦ none
      | some chosen ↦ fill t target m members (map_insert idx chosen resolved)
    ]

-- The target and the bindings so far, from the shared call or from the least member.
choose_target :
    Trace → List EvidenceRef → List (List Binding) → Bindings → Option (CallId × Bindings)
unfolding shared_call pick_target
choose_target t members m resolved = elim (shared_call t none resolved) [
  | none ↦ none
  | some none ↦ pick_target t members m resolved
  | some (some id) ↦ some (id, resolved)
]

unfoldable pub resolve_same_call :
    Trace → CompiledSameCall → List (List Binding) → ℕ → Binding → Bindings → Option Bindings
unfolding preset choose_target fill
resolve_same_call t same_call m anchor_idx anchor_binding sequence_bindings =
    let resolved = preset anchor_idx anchor_binding sequence_bindings same_call.members [] in
    elim (choose_target t same_call.members m resolved) [
      | none ↦ none
      | some (target, bound) ↦ fill t target m same_call.members bound
    ]
