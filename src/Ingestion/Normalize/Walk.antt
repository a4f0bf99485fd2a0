-- ===== src/Ingestion/Normalize/Walk.antt =====
-- normalize.rs: the walk over the call tree with its work stack, and `normalize`.
use rootcause.Prelude.{
  ℕ, zero, suc, ◌+◌, ◌%◌, Option, none, some, List, [], ◌∷◌, ◌++◌, String, string_Eq, Result, ok,
  err, ◌>>=◌, length, ltb, ◌==◌, if◌then◌else◌,
}
use rootcause.Facts.Types.{
  Address, TxHash, Wei, Gas, CallKind, TxStatus, success, reverted, executes_in_caller_context,
}
use rootcause.Facts.Arena.{u16_mod}
use rootcause.Ingestion.Error.{
  IngestionError, CallPath, unsupported_feature, unknown_status, no_parent_context, too_deep,
  out_of_fuel,
}
use rootcause.Ingestion.Raw.{
  RawFrame, RawCall, raw_call, RawCalls, no_calls, more_calls, RawTraceDocument,
}
use rootcause.Ingestion.HexUtil.{
  parse_hex_u64, parse_hex_u128, parse_address, parse_word, parse_hex_bytes,
}
use rootcause.Ingestion.Normalize.{
  NormalizedCall, NormalizedStorageChange, NormalizedLog, NormalizedTokenTransfer, Accumulator,
  max_call_depth, traverse, parse_call_kind, extract_selector, process_storage_changes,
  process_logs,
}

-- A call that is still to be visited, with what its parent established.
pub record PendingCall : Type 0 where
  pub raw : RawCall
  pub parent_index : Option ℕ
  pub depth : ℕ
  pub parent_storage_context : Option Address
  pub path : CallPath

abbrev pub frame_of : RawCall → RawFrame
frame_of (raw_call frame calls) = frame

abbrev pub calls_of : RawCall → RawCalls
calls_of (raw_call frame calls) = calls

unfoldable pub selector_of : Option String → Result IngestionError (Option (List ℕ))
unfolding extract_selector parse_hex_bytes
selector_of none = ok none
selector_of (some input) =
    parse_hex_bytes "call.input" input >>= λ calldata. ok (extract_selector calldata)

abbrev pub to_or_from : Option Address → Address → Address
to_or_from none from = from
to_or_from (some to) from = to

-- Whose storage a call of this kind writes.
abbrev pub storage_context_of :
    CallKind → Option Address → Option Address → Address → CallPath → Result IngestionError Address
storage_context_of kind parent_context to from path =
    if executes_in_caller_context kind
    then elim parent_context [
      | none ↦ err (unsupported_feature (no_parent_context path))
      | some context ↦ ok context
    ]
    else ok (to_or_from to from)

-- The fields of a call, and its storage context.
unfoldable pub read_call : PendingCall → Result IngestionError (NormalizedCall × Address)
unfolding parse_call_kind parse_address parse_hex_u64 parse_hex_u128 executes_in_caller_context
    selector_of
read_call item =
    let raw = frame_of item.raw in
    if ltb max_call_depth item.depth
    then err (unsupported_feature (too_deep item.path))
    else parse_call_kind item.path raw.kind >>= λ kind.
        parse_address "call.from" raw.from >>= λ from.
        traverse (parse_address "call.to") raw.to >>= λ to.
        parse_hex_u128 "call.value" raw.value >>= λ value.
        parse_hex_u64 "call.gasLimit" raw.gas_limit >>= λ gas_limit.
        parse_hex_u64 "call.gasUsed" raw.gas_used >>= λ gas_used.
        selector_of raw.input >>= λ selector.
        storage_context_of kind item.parent_storage_context to from item.path >>= λ context. ok (
          record {
            parent_index = item.parent_index;
            depth = item.depth;
            kind = kind;
            from = from;
            to = to;
            value = value;
            gas_limit = gas_limit;
            gas_used = gas_used;
            succeeded = raw.succeeded;
            selector = selector;
          },
          context,
        )

-- One round of the walk, up to its children: the storage context is what they need of it.
unfoldable pub visit : PendingCall → Accumulator → Result IngestionError (Accumulator × Address)
unfolding read_call process_storage_changes process_logs
visit item acc =
    let raw = frame_of item.raw in
    let this_index = length acc.calls in
    read_call item >>= λ (c, context).
    process_storage_changes this_index context item.path raw.storage_changes
      (record acc { calls = acc.calls ++ c ∷ [] })
    >>= λ changed.
        process_logs this_index item.path raw.logs changed >>= λ logged. ok (logged, context)

-- `iter().enumerate().rev()`, counted from `i`.
abbrev pub enumerate_rev : ℕ → RawCalls → List (ℕ × RawCall)
enumerate_rev i no_calls = []
enumerate_rev i (more_calls c cs) = enumerate_rev (suc i) cs ++ (i, c) ∷ []

-- What a visited call hands to its `i`-th child.
abbrev pub pending_child : PendingCall → ℕ → Address → ℕ × RawCall → PendingCall
pending_child item this_index context (i, child) = record {
  raw = child;
  parent_index = some this_index;
  depth = (item.depth + 1) % u16_mod;
  parent_storage_context = some context;
  path = i ∷ item.path;
}

-- The pushes, one by one; the top of the stack is the head of the list.
abbrev pub push_all :
    PendingCall → ℕ → Address → List (ℕ × RawCall) → List PendingCall → List PendingCall
push_all item this_index context [] stack = stack
push_all item this_index context (child ∷ children) stack =
    push_all item this_index context children (pending_child item this_index context child ∷ stack)

unfoldable pub walk_loop : ℕ → List PendingCall → Accumulator → Result IngestionError Accumulator
unfolding visit
walk_loop fuel [] acc = ok acc
walk_loop zero (item ∷ stack) acc = err out_of_fuel
walk_loop (suc fuel) (item ∷ stack) acc = elim (visit item acc) [
  | err e ↦ err e
  | ok (next, context) ↦
      walk_loop fuel
        (push_all item (length acc.calls) context (enumerate_rev 0 (calls_of item.raw)) stack) next
]

-- The number of calls of a tree.
abbrev mutual
  pub size : RawCall → ℕ
  size (raw_call frame calls) = suc (sizes calls)

  pub sizes : RawCalls → ℕ
  sizes no_calls = 0
  sizes (more_calls c cs) = size c + sizes cs

abbrev pub pending_root : RawCall → PendingCall
pending_root root = record {
  raw = root;
  parent_index = none;
  depth = 0;
  parent_storage_context = none;
  path = [];
}

-- A round for every call of the tree.
unfoldable pub walk_tree : RawCall → Accumulator → Result IngestionError Accumulator
unfolding walk_loop
walk_tree root acc = walk_loop (size root) (pending_root root ∷ []) acc

pub record NormalizedTrace : Type 0 where
  pub transaction_hash : TxHash
  pub transaction_from : Address
  pub transaction_to : Option Address
  pub transaction_value : Wei
  pub transaction_nonce : ℕ
  pub transaction_gas_used : Gas
  pub transaction_status : TxStatus
  pub block_number : ℕ
  pub block_timestamp : ℕ
  pub block_chain_id : ℕ
  pub block_base_fee : Option Wei
  pub calls : List NormalizedCall
  pub storage_changes : List NormalizedStorageChange
  pub logs : List NormalizedLog
  pub token_transfers : List NormalizedTokenTransfer

abbrev pub empty_accumulator : Accumulator
empty_accumulator = record {
  calls = [];
  storage_changes = [];
  logs = [];
  token_transfers = [];
  seen_log_indices = [];
}

abbrev pub status_from : String → Result IngestionError TxStatus
status_from s =
    if s == "success"
    then ok success
    else if s == "reverted"
    then ok reverted
    else err (unsupported_feature (unknown_status s))

unfoldable pub normalize : RawTraceDocument → Result IngestionError NormalizedTrace
unfolding parse_word parse_address parse_hex_u64 parse_hex_u128 walk_tree
normalize doc = parse_word "transaction.hash" doc.transaction.hash >>= λ hash.
    parse_address "transaction.from" doc.transaction.from >>= λ from.
    traverse (parse_address "transaction.to") doc.transaction.to >>= λ to.
    parse_hex_u128 "transaction.value" doc.transaction.value >>= λ value.
    parse_hex_u64 "transaction.nonce" doc.transaction.nonce >>= λ nonce.
    parse_hex_u64 "transaction.gasUsed" doc.transaction.gas_used >>= λ gas_used.
    status_from doc.transaction.status >>= λ status.
    parse_hex_u64 "block.number" doc.block.number >>= λ number.
    parse_hex_u64 "block.timestamp" doc.block.timestamp >>= λ timestamp.
    parse_hex_u64 "block.chainId" doc.block.chain_id >>= λ chain_id.
    traverse (parse_hex_u128 "block.baseFee") doc.block.base_fee >>= λ base_fee.
    walk_tree doc.root empty_accumulator >>= λ acc. ok (record {
      transaction_hash = hash;
      transaction_from = from;
      transaction_to = to;
      transaction_value = value;
      transaction_nonce = nonce;
      transaction_gas_used = gas_used;
      transaction_status = status;
      block_number = number;
      block_timestamp = timestamp;
      block_chain_id = chain_id;
      block_base_fee = base_fee;
      calls = acc.calls;
      storage_changes = acc.storage_changes;
      logs = acc.logs;
      token_transfers = acc.token_transfers;
    })
