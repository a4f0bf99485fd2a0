-- ===== src/Facts/Trace.antt =====
-- crates/fact-model/src/trace.rs: a validated arena with the context of its transaction.
use rootcause.Prelude.{ℕ, not, String, Result, ok, err, ◌==◌, if◌then◌else◌, nat_Eq, list_Eq}
use rootcause.Facts.Types.{TxHash, Transaction, BlockContext}
use rootcause.Facts.Arena.{FactArena}

-- Where a trace came from.
pub data TraceSource : Type 0 where
  archive_node_rpc : String → TraceSource

pub record TraceMetadata : Type 0 where
  pub transaction_hash : TxHash
  pub chain_id : ℕ
  pub block_number : ℕ
  pub source : TraceSource

pub record Trace : Type 0 where
  pub metadata : TraceMetadata
  pub block : BlockContext
  pub transaction : Transaction
  pub arena : FactArena

-- `Trace::new`
unfoldable pub new_trace :
    TraceMetadata → BlockContext → Transaction → FactArena → Result String Trace
new_trace metadata block transaction arena =
    if not (metadata.transaction_hash == transaction.hash)
    then err "TraceMetadata.transaction_hash does not match Transaction.hash"
    else if not (metadata.chain_id == block.chain_id)
    then err "TraceMetadata.chain_id does not match BlockContext.chain_id"
    else if not (metadata.block_number == block.number)
    then err "TraceMetadata.block_number does not match BlockContext.number"
    else ok
        (record { metadata = metadata; block = block; transaction = transaction; arena = arena })
