-- ===== src/Facts/Arena.antt =====
-- crates/fact-model/src/arena.rs: the arena, its accessors, and the builder that validates it.
--
-- A builder method that returns an id and mutates returns the pair of id and new builder; `none` is
-- the panic of `expect` past 2^32 entries.
pub mod Valid
pub mod Ids
pub mod Tree
pub mod NetValue
use rootcause.Prelude.{
  ℕ, zero, suc, ◌+◌, ◌-◌, ◌%◌, ◌^◌, ◌≤◌, Bool, true, false, Option, none, some, List, [], ◌∷◌, ◌++◌,
  Result, ok, err, ◌>>◌, ltb, leb, ◌==◌, if◌then◌else◌, length, get_elem?, filter, try_for_each,
  try_enumerate, nat_Eq, option_Eq,
}
use rootcause.Facts.Types.{
  CallId, StorageChangeId, LogId, TokenTransferId, Call, StorageChange, LogEvent, TokenTransfer,
  ValueFlow, flow_of_call, FactModelError, empty_call_list, multiple_root_calls,
  first_call_is_not_root, parent_not_yet_seen, inconsistent_call_depth,
  storage_change_references_unknown_call, log_references_unknown_call,
  token_transfer_references_unknown_log,
}

abbrev pub u32_mod : ℕ
u32_mod = 2 ^ 32

abbrev pub u16_mod : ℕ
u16_mod = 2 ^ 16

-- `u32::try_from(i).unwrap_or(u32::MAX)`
abbrev pub saturate_u32 : ℕ → ℕ
saturate_u32 i = if ltb i u32_mod then i else u32_mod - 1

pub record FactArena : Type 0 where
  pub calls : List Call
  pub storage_changes : List StorageChange
  pub logs : List LogEvent
  pub token_transfers : List TokenTransfer

module _ (a : FactArena) where
  unfoldable pub root_call : Option Call
  root_call = get_elem? a.calls 0

  unfoldable pub call : CallId → Option Call
  call id = get_elem? a.calls id

  unfoldable pub storage_change : StorageChangeId → Option StorageChange
  storage_change id = get_elem? a.storage_changes id

  unfoldable pub log : LogId → Option LogEvent
  log id = get_elem? a.logs id

  unfoldable pub token_transfer : TokenTransferId → Option TokenTransfer
  token_transfer id = get_elem? a.token_transfers id

-- `iter().enumerate().map(..)`, counted from `i`.
abbrev pub with_ids {ℓ} : {A : Type ℓ} → ℕ → List A → List (ℕ × A)
with_ids i [] = []
with_ids i (x ∷ xs) = (saturate_u32 i, x) ∷ with_ids (suc i) xs

unfoldable pub storage_changes_with_ids : FactArena → List (StorageChangeId × StorageChange)
storage_changes_with_ids a = with_ids 0 a.storage_changes

unfoldable pub token_transfers_with_ids : FactArena → List (TokenTransferId × TokenTransfer)
token_transfers_with_ids a = with_ids 0 a.token_transfers

unfoldable pub children_of : FactArena → CallId → List Call
children_of a parent = filter (λ c. c.parent == some parent) a.calls

unfoldable pub storage_changes_for_call : FactArena → CallId → List StorageChange
storage_changes_for_call a id = filter (λ change. change.call_id == id) a.storage_changes

abbrev pub flows_of : List Call → List ValueFlow
flows_of [] = []
flows_of (c ∷ cs) = elim (flow_of_call c) [ none ↦ flows_of cs | some f ↦ f ∷ flows_of cs ]

unfoldable pub value_flows : FactArena → List ValueFlow
value_flows a = flows_of a.calls

pub record FactArenaBuilder : Type 0 where
  pub calls : List Call
  pub storage_changes : List StorageChange
  pub logs : List LogEvent
  pub token_transfers : List TokenTransfer

unfoldable pub new_builder : FactArenaBuilder
new_builder = record { calls = []; storage_changes = []; logs = []; token_transfers = [] }

-- `u32::try_from(len).expect(..)`
abbrev next_id : ℕ → Option ℕ
next_id len = if ltb len u32_mod then some len else none

module _ (b : FactArenaBuilder) where
  unfoldable pub next_call_id : Option CallId
  next_call_id = next_id (length b.calls)

  unfoldable pub next_log_id : Option LogId
  next_log_id = next_id (length b.logs)

  unfoldable pub next_storage_change_id : Option StorageChangeId
  next_storage_change_id = next_id (length b.storage_changes)

  unfoldable pub next_token_transfer_id : Option TokenTransferId
  next_token_transfer_id = next_id (length b.token_transfers)

unfoldable pub add_call : FactArenaBuilder → Call → CallId × FactArenaBuilder
add_call b c = (c.id, record b { calls = b.calls ++ c ∷ [] })

unfoldable pub add_log : FactArenaBuilder → LogEvent → LogId × FactArenaBuilder
add_log b l = (l.id, record b { logs = b.logs ++ l ∷ [] })

unfoldable pub add_storage_change :
    FactArenaBuilder → StorageChange → Option (StorageChangeId × FactArenaBuilder)
unfolding next_storage_change_id
add_storage_change b change = elim (next_storage_change_id b) [
  | none ↦ none
  | some id ↦ some (id, record b { storage_changes = b.storage_changes ++ change ∷ [] })
]

unfoldable pub add_token_transfer :
    FactArenaBuilder → TokenTransfer → Option (TokenTransferId × FactArenaBuilder)
unfolding next_token_transfer_id
add_token_transfer b transfer = elim (next_token_transfer_id b) [
  | none ↦ none
  | some id ↦ some (id, record b { token_transfers = b.token_transfers ++ transfer ∷ [] })
]

-- The loop over `calls[1..]`.
reject_root : CallId → Call → Result FactModelError (Unit {0})
reject_root first c = elim c.parent [ none ↦ err (multiple_root_calls first c.id) | some p ↦ ok tt ]

-- The checks against a parent that exists. `parent.depth.0 + 1` is u16 arithmetic, written as it
-- wraps in a release build.
check_parent_of : Call → CallId → Option Call → Result FactModelError (Unit {0})
check_parent_of c parent_id none = err (parent_not_yet_seen c.id parent_id)
check_parent_of c parent_id (some parent) =
    let expected = (parent.depth + 1) % u16_mod in
    if leb c.id parent_id
    then err (parent_not_yet_seen c.id parent_id)
    else if c.depth == expected
    then ok tt
    else err (inconsistent_call_depth c.id parent_id parent.depth c.depth expected)

check_parent : List Call → Call → Result FactModelError (Unit {0})
unfolding check_parent_of
check_parent calls c = elim c.parent [
  | none ↦ ok tt
  | some parent_id ↦ check_parent_of c parent_id (get_elem? calls parent_id)
]

unfoldable pub validate_call_tree : List Call → Result FactModelError (Unit {0})
unfolding reject_root check_parent
validate_call_tree [] = err empty_call_list
validate_call_tree (first ∷ rest) = elim first.parent [
  | some p ↦ err (first_call_is_not_root first.id)
  | none ↦
      try_for_each (reject_root first.id) rest
      >> try_for_each (check_parent (first ∷ rest)) (first ∷ rest)
]

-- `u32::try_from(index).unwrap_or(0)`
abbrev id_or_zero : ℕ → ℕ
id_or_zero i = if ltb i u32_mod then i else 0

check_storage_change : List Call → ℕ → StorageChange → Result FactModelError (Unit {0})
check_storage_change calls index change = elim (get_elem? calls change.call_id) [
  | none ↦ err (storage_change_references_unknown_call (id_or_zero index) change.call_id)
  | some c ↦ ok tt
]

check_log : List Call → ℕ → LogEvent → Result FactModelError (Unit {0})
check_log calls index l = elim (get_elem? calls l.call_id) [
  | none ↦ err (log_references_unknown_call (id_or_zero index) l.call_id)
  | some c ↦ ok tt
]

check_token_transfer : List LogEvent → TokenTransfer → Result FactModelError (Unit {0})
check_token_transfer logs transfer = elim (get_elem? logs transfer.log_id) [
  | none ↦ err (token_transfer_references_unknown_log transfer.log_id)
  | some l ↦ ok tt
]

unfoldable pub build : FactArenaBuilder → Result FactModelError FactArena
unfolding validate_call_tree check_storage_change check_log check_token_transfer
build b = do
  validate_call_tree b.calls
  try_enumerate (check_storage_change b.calls) 0 b.storage_changes
  try_enumerate (check_log b.calls) 0 b.logs
  try_for_each (check_token_transfer b.logs) b.token_transfers
  ok (record {
    calls = b.calls;
    storage_changes = b.storage_changes;
    logs = b.logs;
    token_transfers = b.token_transfers;
  })
