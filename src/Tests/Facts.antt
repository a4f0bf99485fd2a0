-- ===== src/Tests/Facts.antt =====
-- The arena's theorems at the trace of Data.
use rootcause.Prelude.{◌≡◌, ◌↔◌, List, refl, none, some, [], ◌∷◌, ok, err}
use rootcause.Facts.Types.{Call, multiple_root_calls, inconsistent_call_depth}
use rootcause.Facts.Arena.{FactArenaBuilder, build, next_call_id, add_call}
use rootcause.Facts.Arena.Valid.{WellFormed, frozen, build_iff}
use rootcause.Facts.Arena.Tree.{IsTree, build-IsTree}
use rootcause.Facts.Arena.NetValue.{net_value_extracted}
use rootcause.Facts.Arena.NetValue.Exact.{
  received, sent, NetIsExact, net_value_extracted-NetIsExact,
}
use rootcause.Facts.Arena.Ids.{IdsFrom, add_call-IdsFrom}
use rootcause.Tests.Data.{
  root_frame, reentry_frame, two_frames, reentrant_builder, reentrant_arena, reentrant-build,
  call_at, address_of,
}

build_iff_example :
    (build reentrant_builder ≡ ok reentrant_arena)
    ↔ ((reentrant_arena ≡ frozen reentrant_builder) × WellFormed reentrant_arena)
build_iff_example = build_iff reentrant_builder reentrant_arena

build-IsTree_example : (reentrant_arena ≡ frozen reentrant_builder) × IsTree reentrant_arena
build-IsTree_example =
    build-IsTree reentrant_builder reentrant_arena (refl, (refl, (refl, tt))) reentrant-build

-- The second call names a parent that stands after it; with id 5 for position 1, it is accepted.
abbrev forward_calls : List Call
forward_calls = root_frame ∷ call_at 5 (some 2) 2 3 2 0 ∷ call_at 2 (some 0) 1 2 3 5 ∷ []

-- The first call is at depth 7.
abbrev deep_calls : List Call
deep_calls = call_at 0 none 7 1 2 0 ∷ call_at 1 (some 0) 8 2 3 5 ∷ []

abbrev calls_only : List Call → FactArenaBuilder
calls_only cs = record { calls = cs; storage_changes = []; logs = []; token_transfers = [] }

forward_calls-accepted : build (calls_only forward_calls) ≡ ok (frozen (calls_only forward_calls))
unfolding build
forward_calls-accepted = refl

deep_calls-accepted : build (calls_only deep_calls) ≡ ok (frozen (calls_only deep_calls))
unfolding build
deep_calls-accepted = refl

two_frames-next : next_call_id two_frames ≡ some reentry_frame.id
unfolding next_call_id
two_frames-next = refl

add_call-IdsFrom_example : IdsFrom 0 (add_call two_frames reentry_frame).1.calls
add_call-IdsFrom_example =
    add_call-IdsFrom two_frames reentry_frame (refl, (refl, tt)) two_frames-next

flat-rejected :
    build (calls_only (root_frame ∷ call_at 1 (some 0) 2 2 3 5 ∷ []))
    ≡ err (inconsistent_call_depth 1 0 0 2 1)
unfolding build
flat-rejected = refl

two_roots-rejected :
    build (calls_only (root_frame ∷ call_at 1 none 0 2 3 5 ∷ [])) ≡ err (multiple_root_calls 0 1)
unfolding build
two_roots-rejected = refl

-- The root pays the second address 5 wei and gets nothing back.
net_value_extracted-NetIsExact_example :
    NetIsExact
      (net_value_extracted reentrant_arena (address_of 2))
      (received (address_of 2) reentrant_arena.calls)
      (sent (address_of 2) reentrant_arena.calls)
net_value_extracted-NetIsExact_example =
    net_value_extracted-NetIsExact reentrant_arena (address_of 2)
