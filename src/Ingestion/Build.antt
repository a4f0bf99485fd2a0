-- ===== src/Ingestion/Build.antt =====
-- crates/ingestion/src/build.rs: the arena and the trace from normalized facts.
--
-- An index out of range and an `expect` that finds nothing are `panicked`.
pub mod Made
pub mod Valid
pub mod Content
pub mod Loops
pub mod Outcome
pub mod Small
use rootcause.Prelude.{
  ℕ, Option, none, some, List, [], ◌∷◌, ◌++◌, String, Result, ok, err, ◌>>=◌, get_elem?,
}
use rootcause.Facts.Types.{
  CallId, LogId, Call, new_call, with_selector, StorageChange, LogEvent, new_log, TokenTransfer,
  Transaction, BlockContext, FactModelError,
}
use rootcause.Facts.Arena.{
  FactArena, FactArenaBuilder, new_builder, next_call_id, next_log_id, add_call, add_storage_change,
  add_log, add_token_transfer,
}
use rootcause.Facts.Arena
use rootcause.Facts.Trace.{TraceSource, TraceMetadata, Trace, new_trace}
use rootcause.Ingestion.Error.{IngestionError, arena_construction, trace_construction, panicked}
use rootcause.Ingestion.Normalize.{
  NormalizedCall, NormalizedStorageChange, NormalizedLog, NormalizedTokenTransfer,
}
use rootcause.Ingestion.Normalize.Walk.{NormalizedTrace}

abbrev pub or_panic {ℓ} : {A : Type ℓ} → Option A → Result IngestionError A
or_panic none = err panicked
or_panic (some a) = ok a

-- `.map_err(IngestionError::TraceConstruction)`
abbrev pub constructed {ℓ} : {A : Type ℓ} → Result String A → Result IngestionError A
constructed (ok a) = ok a
constructed (err reason) = err (trace_construction reason)

-- `?` on a `FactModelError`
abbrev pub arena_constructed {ℓ} : {A : Type ℓ} → Result FactModelError A → Result IngestionError A
arena_constructed (ok a) = ok a
arena_constructed (err e) = err (arena_construction e)

-- `nc.parent_index.map(|i| call_ids[i])`
abbrev pub parent_of : List CallId → Option ℕ → Result IngestionError (Option CallId)
parent_of call_ids none = ok none
parent_of call_ids (some i) = or_panic (get_elem? call_ids i) >>= λ id. ok (some id)

unfoldable pub select : Option (List ℕ) → Call → Call
unfolding with_selector
select none c = c
select (some selector) c = with_selector c selector

-- The loop over the calls, with the ids so far.
unfoldable pub add_calls :
    List NormalizedCall
    → List CallId
    → FactArenaBuilder
    → Result IngestionError (List CallId × FactArenaBuilder)
unfolding next_call_id new_call add_call select
add_calls [] call_ids b = ok (call_ids, b)
add_calls (nc ∷ ncs) call_ids b = or_panic (next_call_id b) >>= λ id.
    parent_of call_ids nc.parent_index >>= λ parent.
    constructed (
      new_call id parent nc.kind nc.depth nc.from nc.to nc.value nc.gas_limit nc.gas_used
        nc.succeeded)
    >>= λ c. add_calls ncs (call_ids ++ id ∷ []) (add_call b (select nc.selector c)).1

unfoldable pub add_storage_changes :
    List CallId
    → List NormalizedStorageChange
    → FactArenaBuilder
    → Result IngestionError FactArenaBuilder
unfolding add_storage_change
add_storage_changes call_ids [] b = ok b
add_storage_changes call_ids (sc ∷ scs) b =
    or_panic (get_elem? call_ids sc.call_index) >>= λ call_id.
    or_panic (
      add_storage_change b (record {
        call_id = call_id;
        slot = record { contract = sc.contract; key = sc.slot };
        before = sc.before;
        after = sc.after;
      }))
    >>= λ (id, next). add_storage_changes call_ids scs next

unfoldable pub add_logs :
    List CallId
    → List NormalizedLog
    → List LogId
    → FactArenaBuilder
    → Result IngestionError (List LogId × FactArenaBuilder)
unfolding next_log_id new_log add_log
add_logs call_ids [] log_ids b = ok (log_ids, b)
add_logs call_ids (log ∷ logs) log_ids b =
    or_panic (get_elem? call_ids log.call_index) >>= λ call_id.
    or_panic (next_log_id b) >>= λ log_id.
    constructed (new_log log_id call_id log.address log.topics log.bytes log.log_index) >>= λ event.
    add_logs call_ids logs (log_ids ++ log_id ∷ []) (add_log b event).1

unfoldable pub add_token_transfers :
    List LogId
    → List NormalizedTokenTransfer
    → FactArenaBuilder
    → Result IngestionError FactArenaBuilder
unfolding add_token_transfer
add_token_transfers log_ids [] b = ok b
add_token_transfers log_ids (transfer ∷ transfers) b =
    or_panic (get_elem? log_ids transfer.log_index_in_vec) >>= λ log_id.
    or_panic (
      add_token_transfer b (record {
        log_id = log_id;
        token = transfer.token;
        from = transfer.from;
        to = transfer.to;
        amount = transfer.amount;
      }))
    >>= λ (id, next). add_token_transfers log_ids transfers next

-- The trace of an arena, with the context of its transaction.
unfoldable pub trace_of : NormalizedTrace → TraceSource → FactArena → Result IngestionError Trace
unfolding new_trace
trace_of n source arena = constructed (
    new_trace
      (record {
        transaction_hash = n.transaction_hash;
        chain_id = n.block_chain_id;
        block_number = n.block_number;
        source = source;
      })
      (record {
        number = n.block_number;
        timestamp = n.block_timestamp;
        chain_id = n.block_chain_id;
        base_fee = n.block_base_fee;
      })
      (record {
        hash = n.transaction_hash;
        from = n.transaction_from;
        to = n.transaction_to;
        value = n.transaction_value;
        nonce = n.transaction_nonce;
        gas_used = n.transaction_gas_used;
        status = n.transaction_status;
      })
      arena)

unfoldable pub build : NormalizedTrace → TraceSource → Result IngestionError Trace
unfolding add_calls add_storage_changes add_logs add_token_transfers trace_of Arena.build
    new_builder
build n source = add_calls n.calls [] new_builder >>= λ (call_ids, with_calls).
    add_storage_changes call_ids n.storage_changes with_calls >>= λ with_changes.
    add_logs call_ids n.logs [] with_changes >>= λ (log_ids, with_logs).
    add_token_transfers log_ids n.token_transfers with_logs >>= λ b.
    arena_constructed (Arena.build b) >>= trace_of n source
