-- ===== src/Matcher/Index.antt =====
-- crates/matcher/src/index.rs: the calls by id, and the calls that re-enter an ancestor's target.
pub mod Calls
pub mod Reentrancy
use rootcause.Prelude.{
  ℕ, Bool, true, false, Option, none, some, List, [], ◌∷◌, nat_Eq, list_Eq, contains, insert,
  lookup, if◌then◌else◌,
}
use rootcause.Facts.Types.{CallId, Call, Address}
use rootcause.Facts.Arena.{FactArena}
use rootcause.Facts.Trace.{Trace}

pub record TraceIndex : Type 0 where
  pub trace : Trace
  pub calls_by_id : List (CallId × Call)
  pub reentrant_calls : List CallId

-- `calls().map(|call| (call.id, call)).collect()`: a later call replaces one of the same id.
pub collect_calls : List Call → List (CallId × Call) → List (CallId × Call)
collect_calls [] m = m
collect_calls (c ∷ cs) m = collect_calls cs ((c.id, c) ∷ m)

abbrev pub or_empty : Option (List Address) → List Address
or_empty none = []
or_empty (some targets) = targets

abbrev pub insert_target : Option Address → List Address → List Address
insert_target none targets = targets
insert_target (some to) targets = insert to targets

abbrev pub target_of : Option Call → Option Address
target_of none = none
target_of (some c) = c.to

-- The targets of every strict ancestor of a call with this parent.
strict_ancestor_targets :
    List (CallId × Call) → List (CallId × List Address) → Option CallId → List Address
strict_ancestor_targets calls_by_id ancestor_targets none = []
strict_ancestor_targets calls_by_id ancestor_targets (some p) =
    insert_target (target_of (lookup p calls_by_id)) (or_empty (lookup p ancestor_targets))

mark : Call → List Address → List CallId → List CallId
mark c targets reentrant_calls = elim c.to [
  | none ↦ reentrant_calls
  | some to ↦ if contains targets to then insert c.id reentrant_calls else reentrant_calls
]

-- The forward pass over the calls.
scan_calls :
    List (CallId × Call) → List (CallId × List Address) → List CallId → List Call → List CallId
unfolding strict_ancestor_targets mark
scan_calls calls_by_id ancestor_targets reentrant_calls [] = reentrant_calls
scan_calls calls_by_id ancestor_targets reentrant_calls (c ∷ cs) =
    let targets = strict_ancestor_targets calls_by_id ancestor_targets c.parent in
    scan_calls calls_by_id ((c.id, targets) ∷ ancestor_targets) (mark c targets reentrant_calls) cs

-- `TraceIndex::build`
unfoldable pub build_index : Trace → TraceIndex
unfolding collect_calls scan_calls
build_index t =
    let calls = t.arena.calls in
    let calls_by_id = collect_calls calls [] in
    record {
      trace = t;
      calls_by_id = calls_by_id;
      reentrant_calls = scan_calls calls_by_id [] [] calls;
    }

unfoldable pub index_call : TraceIndex → CallId → Option Call
index_call index id = lookup id index.calls_by_id

unfoldable pub is_reentrant : TraceIndex → CallId → Bool
is_reentrant index id = contains index.reentrant_calls id
