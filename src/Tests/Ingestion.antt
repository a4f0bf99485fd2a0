-- ===== src/Tests/Ingestion.antt =====
-- A document of two calls with a storage change and a transfer, and the theorems of Ingestion at it.
use rootcause.Prelude.{
  Result, false, ℕ, ◌≡◌, refl, true, none, some, List, [], ◌∷◌, String, ok, err, any, arith,
  if◌then◌else◌,
}
use rootcause.Facts.Types.{can_carry_value, call, static_call, delegate_call, success}
use rootcause.Facts.Arena.Valid.{WellFormed}
use rootcause.Facts.Arena.Ids.{IsIndexed}
use rootcause.Facts.Trace.{archive_node_rpc, TraceSource}
use rootcause.Ingestion.Error.{IngestionError, trace_construction}
use rootcause.Ingestion.Raw.{
  RawFrame, RawCall, raw_call, no_calls, more_calls, RawStorageChange, RawLog, RawTraceDocument,
}
use rootcause.Ingestion.HexUtil.{parse_hex_u64}
use rootcause.Ingestion.Normalize.{NormalizedCall}
use rootcause.Ingestion.Normalize.Walk.{
  NormalizedTrace, normalize, walk_loop, pending_root, empty_accumulator,
}
use rootcause.Ingestion.Normalize.PreOrder.{traverse_call, walk_loop-traverse_call}
use rootcause.Ingestion.Normalize.Valid.{IsValid, normalize-IsValid}
use rootcause.Ingestion.Build.{build, select}
use rootcause.Ingestion.Pipeline.{ingest}
use rootcause.Ingestion.Pipeline.Ingested.{ingest-IsValid}
use rootcause.Ingestion.Build.Made.{made_of}
use rootcause.Ingestion.Build.Valid.{build-IsIndexed}
use rootcause.Ingestion.Build.Content.{arena_of, moves_static_value}
use rootcause.Ingestion.Build.Outcome.{IsSmall, build_outcome}

abbrev vault_text : String
vault_text = "0x0000000000000000000000000000000000000001"

abbrev vault : List ℕ
vault = 0 ∷ 0 ∷ 0 ∷ 0 ∷ 0 ∷ 0 ∷ 0 ∷ 0 ∷ 0 ∷ 0 ∷ 0 ∷ 0 ∷ 0 ∷ 0 ∷ 0 ∷ 0 ∷ 0 ∷ 0 ∷ 0 ∷ 1 ∷ []

abbrev word_text : String
word_text = "0x0000000000000000000000000000000000000000000000000000000000000001"

abbrev one : List ℕ
one = 0 ∷ 0 ∷ 0 ∷ 0 ∷ 0 ∷ 0 ∷ 0 ∷ 0 ∷ 0 ∷ 0 ∷ 0 ∷ 0 ∷ vault

abbrev frame : String → String → List RawStorageChange → List RawLog → RawFrame
frame kind value changes logs = record {
  kind = kind;
  from = vault_text;
  to = some vault_text;
  value = value;
  gas_limit = "0x10";
  gas_used = "0x+1";
  succeeded = true;
  input = none;
  storage_changes = changes;
  logs = logs;
}

abbrev change : RawStorageChange
change = record { contract = vault_text; slot = word_text; before = word_text; after = word_text }

abbrev log : RawLog
log = record { address = vault_text; topics = word_text ∷ []; bytes = "0xff"; log_index = "0x7" }

-- The root, and one child of this kind and value.
abbrev tree : String → String → RawCall
tree kind value =
    raw_call (frame "CALL" "0x2" [] (log ∷ []))
      (more_calls (raw_call (frame kind value (change ∷ []) []) no_calls) no_calls)

abbrev document : String → String → RawTraceDocument
document kind value = record {
  transaction = record {
    hash = word_text;
    from = vault_text;
    to = none;
    value = "0x2";
    nonce = "0x0";
    gas_used = "0x10";
    status = "success";
  };
  block = record { number = "0x64"; timestamp = "0x1"; chain_id = "0x1"; base_fee = none };
  root = tree kind value;
}

abbrev normal_root : NormalizedCall
normal_root = record {
  parent_index = none;
  depth = 0;
  kind = call;
  from = vault;
  to = some vault;
  value = 2;
  gas_limit = 16;
  gas_used = 1;
  succeeded = true;
  selector = none;
}

abbrev normalized : NormalizedCall → NormalizedTrace
normalized child = record {
  transaction_hash = one;
  transaction_from = vault;
  transaction_to = none;
  transaction_value = 2;
  transaction_nonce = 0;
  transaction_gas_used = 16;
  transaction_status = success;
  block_number = 100;
  block_timestamp = 1;
  block_chain_id = 1;
  block_base_fee = none;
  calls = normal_root ∷ child ∷ [];
  storage_changes =
      record { call_index = 1; contract = vault; slot = one; before = one; after = one } ∷ [];
  logs =
      record { call_index = 0; address = vault; topics = one ∷ []; bytes = 255 ∷ []; log_index = 7 }
      ∷ [];
  token_transfers = [];
}

abbrev delegated : NormalizedCall
delegated = record normal_root { parent_index = some 0; depth = 1; kind = delegate_call; value = 0 }

abbrev static_with_value : NormalizedCall
static_with_value = record normal_root {
  parent_index = some 0;
  depth = 1;
  kind = static_call;
  value = 2;
}

document-normalize : normalize (document "delegatecall" "0x0") ≡ ok (normalized delegated)
unfolding normalize
document-normalize = refl

static_value-normalize : normalize (document "StaticCall" "0x2") ≡ ok (normalized static_with_value)
unfolding normalize
static_value-normalize = refl

abbrev source : TraceSource
source = archive_node_rpc "node"

-- `from_str_radix` accepts a plus sign after the prefix.
plus-accepted : parse_hex_u64 "field" "0x+1f" ≡ ok 31
unfolding parse_hex_u64
plus-accepted = refl

walk_loop-traverse_call_example :
    walk_loop 2 (pending_root (tree "delegatecall" "0x0") ∷ []) empty_accumulator
    ≡ traverse_call (tree "delegatecall" "0x0") none 0 none [] empty_accumulator
walk_loop-traverse_call_example =
    walk_loop-traverse_call (tree "delegatecall" "0x0") empty_accumulator 2 (omega arith)

normalize-IsValid_example : IsValid (normalized delegated)
normalize-IsValid_example =
    normalize-IsValid (document "delegatecall" "0x0") (normalized delegated) document-normalize

small : (child : NormalizedCall) → IsSmall (normalized child)
small child = record {
  calls = omega arith;
  changes = omega arith;
  logs = omega arith;
  transfers = omega arith;
}

-- A document whose static call has a value is normalized and then refused.
static_value-refused :
    build (normalized static_with_value) source
    ≡ err (trace_construction "a StaticCall cannot carry a nonzero value transfer")
unfolding can_carry_value
static_value-refused =
    build_outcome (normalized static_with_value) source
      (normalize-IsValid (document "StaticCall" "0x2") (normalized static_with_value)
        static_value-normalize)
      (small static_with_value)

build_outcome_example : build (normalized delegated) source ≡ (
    if any moves_static_value (normalized delegated).calls
    then err (trace_construction "a StaticCall cannot carry a nonzero value transfer")
    else ok (made_of (normalized delegated) source (arena_of (normalized delegated))))
build_outcome_example =
    build_outcome (normalized delegated) source
      (normalize-IsValid (document "delegatecall" "0x0") (normalized delegated) document-normalize)
      (small delegated)

delegated-build :
    build (normalized delegated) source
    ≡ ok (made_of (normalized delegated) source (arena_of (normalized delegated)))
unfolding build select
delegated-build = refl

build-IsIndexed_example :
    WellFormed (arena_of (normalized delegated)) × IsIndexed (arena_of (normalized delegated))
build-IsIndexed_example =
    build-IsIndexed (normalized delegated) source
      (made_of (normalized delegated) source (arena_of (normalized delegated))) delegated-build

abbrev read_nothing : Result IngestionError (List ℕ)
read_nothing = ok []

abbrev decode_document : List ℕ → Result IngestionError RawTraceDocument
decode_document bytes = ok (document "delegatecall" "0x0")

delegated-ingest :
    ingest read_nothing decode_document source
    ≡ ok (made_of (normalized delegated) source (arena_of (normalized delegated)))
unfolding ingest select
delegated-ingest = refl

ingest-IsValid_example :
    (bytes : List ℕ) × (raw : RawTraceDocument) × (n : NormalizedTrace) × (read_nothing ≡ ok bytes)
    × (decode_document bytes ≡ ok raw)
    × (normalize raw ≡ ok n)
    × IsValid n
    × (any moves_static_value n.calls ≡ false)
    × (made_of (normalized delegated) source (arena_of (normalized delegated))
        ≡ made_of n source (arena_of n))
ingest-IsValid_example =
    ingest-IsValid read_nothing decode_document source
      (made_of (normalized delegated) source (arena_of (normalized delegated))) delegated-ingest
