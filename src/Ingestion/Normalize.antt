-- ===== src/Ingestion/Normalize.antt =====
-- crates/ingestion/src/normalize.rs: the facts of a document, typed, and each with its call.
pub mod Walk
pub mod PreOrder
pub mod Placed
pub mod Kept
pub mod Visit
pub mod Valid
use rootcause.Prelude.{
  ℕ, zero, suc, ◌+◌, ◌*◌, ◌^◌, Bool, not, ◌&&◌, ◌||◌, Option, none, some, List, [], ◌∷◌, ◌++◌,
  String, Result, ok, err, ◌>>=◌, contains, length, get_elem?, map, leb, ltb, ◌==◌, nat_Eq, list_Eq,
  string_Eq, if◌then◌else◌,
}
use rootcause.Prelude.Text.{as_bytes}
use rootcause.Facts.Types.{
  Address, Word, TxHash, Wei, Gas, CallKind, call, static_call, delegate_call, call_code, create,
  create2, selfdestruct, TxStatus, success, reverted, executes_in_caller_context,
}
use rootcause.Facts.Arena.{u32_mod}
use rootcause.Ingestion.Error.{
  IngestionError, CallPath, unsupported_feature, unknown_status, unknown_kind, no_parent_context,
  too_deep, too_many_topics, log_index_too_large, invalid_storage_ownership, duplicate_log_index,
}
use rootcause.Ingestion.Raw.{RawStorageChange, RawLog, RawFrame}
use rootcause.Ingestion.HexUtil.{
  parse_hex_u64, parse_hex_u128, parse_address, parse_word, parse_hex_bytes,
}

abbrev pub max_call_depth : ℕ
max_call_depth = 1024

-- `keccak256("Transfer(address,address,uint256)")`
abbrev pub transfer_event_topic0 : Word
transfer_event_topic0 =
    0xdd ∷ 0xf2 ∷ 0x52 ∷ 0xad ∷ 0x1b ∷ 0xe2 ∷ 0xc8 ∷ 0x9b ∷ 0x69 ∷ 0xc2 ∷ 0xb0 ∷ 0x68 ∷ 0xfc ∷ 0x37
    ∷ 0x8d ∷ 0xaa ∷ 0x95 ∷ 0x2b ∷ 0xa7 ∷ 0xf1 ∷ 0x63 ∷ 0xc4 ∷ 0xa1 ∷ 0x16 ∷ 0x28 ∷ 0xf5 ∷ 0x5a
    ∷ 0x4d ∷ 0xf5 ∷ 0x23 ∷ 0xb3 ∷ 0xef ∷ []

pub record NormalizedCall : Type 0 where
  pub parent_index : Option ℕ
  pub depth : ℕ
  pub kind : CallKind
  pub from : Address
  pub to : Option Address
  pub value : Wei
  pub gas_limit : Gas
  pub gas_used : Gas
  pub succeeded : Bool
  pub selector : Option (List ℕ)

pub record NormalizedStorageChange : Type 0 where
  pub call_index : ℕ
  pub contract : Address
  pub slot : Word
  pub before : Word
  pub after : Word

pub record NormalizedLog : Type 0 where
  pub call_index : ℕ
  pub address : Address
  pub topics : List Word
  pub bytes : List ℕ  -- the field `data`
  pub log_index : ℕ

pub record NormalizedTokenTransfer : Type 0 where
  pub log_index_in_vec : ℕ
  pub token : Address
  pub from : Address
  pub to : Address
  pub amount : Wei

-- `seen_log_indices` is a set, here the list of what was inserted.
pub record Accumulator : Type 0 where
  pub calls : List NormalizedCall
  pub storage_changes : List NormalizedStorageChange
  pub logs : List NormalizedLog
  pub token_transfers : List NormalizedTokenTransfer
  pub seen_log_indices : List ℕ

-- `.map(..).transpose()` of an optional field, and of a sequence of them.
abbrev pub traverse {ℓ κ} :
    {A : Type ℓ} {B : Type κ}
    → (A → Result IngestionError B)
    → Option A
    → Result IngestionError (Option B)
traverse f none = ok none
traverse f (some a) = f a >>= λ b. ok (some b)

abbrev pub collect {ℓ κ} :
    {A : Type ℓ} {B : Type κ}
    → (A → Result IngestionError B)
    → List A
    → Result IngestionError (List B)
collect f [] = ok []
collect f (x ∷ xs) = f x >>= λ b. collect f xs >>= λ bs. ok (b ∷ bs)

-- `to_ascii_lowercase` of one byte.
abbrev lower : ℕ → ℕ
lower c = if leb b'A' c && leb c b'Z' then c + 32 else c

unfoldable pub parse_call_kind : CallPath → String → Result IngestionError CallKind
parse_call_kind path raw =
    let word = map lower (as_bytes raw) in
    if word == as_bytes "call"
    then ok call
    else if word == as_bytes "staticcall"
    then ok static_call
    else if word == as_bytes "delegatecall"
    then ok delegate_call
    else if word == as_bytes "callcode"
    then ok call_code
    else if word == as_bytes "create"
    then ok create
    else if word == as_bytes "create2"
    then ok create2
    else if word == as_bytes "selfdestruct"
    then ok selfdestruct
    else err (unsupported_feature (unknown_kind word path))

-- The first `n` bytes, and what follows them.
abbrev take {ℓ} : {A : Type ℓ} → ℕ → List A → List A
take zero xs = []
take (suc n) [] = []
take (suc n) (x ∷ xs) = x ∷ take n xs

abbrev drop {ℓ} : {A : Type ℓ} → ℕ → List A → List A
drop zero xs = xs
drop (suc n) [] = []
drop (suc n) (x ∷ xs) = drop n xs

unfoldable pub extract_selector : List ℕ → Option (List ℕ)
extract_selector calldata = if ltb (length calldata) 4 then none else some (take 4 calldata)

abbrev zeros : ℕ → List ℕ
zeros zero = []
zeros (suc n) = 0 ∷ zeros n

unfoldable pub address_from_topic : Word → Option Address
address_from_topic word = if take 12 word == zeros 12 then some (drop 12 word) else none

-- `u128::from_be_bytes`
abbrev pub from_be_bytes : ℕ → List ℕ → ℕ
from_be_bytes acc [] = acc
from_be_bytes acc (b ∷ bs) = from_be_bytes (acc * 256 + b) bs

-- The sender, the recipient and the amount of a transfer; its token is the log's address.
unfoldable pub try_decode_token_transfer :
    Address → List Word → List ℕ → Option (Address × Address × Address × Wei)
unfolding address_from_topic
try_decode_token_transfer token (topic0 ∷ topic1 ∷ topic2 ∷ []) bytes =
    if not (topic0 == transfer_event_topic0) || not (length bytes == 32)
    then none
    else elim (address_from_topic topic1) [
      | none ↦ none
      | some from ↦ elim (address_from_topic topic2) [
        | none ↦ none
        | some to ↦
            if take 16 bytes == zeros 16
            then some (token, from, to, from_be_bytes 0 (drop 16 bytes))
            else none
      ]
    ]
try_decode_token_transfer token _ bytes = none

-- The body of the loop over a call's storage changes.
unfoldable pub process_storage_change :
    ℕ → Address → CallPath → RawStorageChange → Accumulator → Result IngestionError Accumulator
unfolding parse_address parse_word
process_storage_change this_index storage_context path change acc =
    parse_address "storageChange.contract" change.contract >>= λ contract.
    if not (contract == storage_context)
    then err (invalid_storage_ownership path contract storage_context)
    else parse_word "storageChange.slot" change.slot >>= λ slot.
        parse_word "storageChange.before" change.before >>= λ before.
        parse_word "storageChange.after" change.after >>= λ after. ok (record acc {
          storage_changes =
              acc.storage_changes
              ++ record {
                call_index = this_index;
                contract = contract;
                slot = slot;
                before = before;
                after = after;
              }
                ∷ [];
        })

unfoldable pub process_storage_changes :
    ℕ → Address → CallPath → List RawStorageChange → Accumulator → Result IngestionError Accumulator
unfolding process_storage_change
process_storage_changes this_index storage_context path [] acc = ok acc
process_storage_changes this_index storage_context path (change ∷ changes) acc =
    process_storage_change this_index storage_context path change acc
    >>= process_storage_changes this_index storage_context path changes

-- What a log adds to the transfers.
abbrev pub decoded_transfer :
    ℕ → Option (Address × Address × Address × Wei) → List NormalizedTokenTransfer
decoded_transfer position none = []
decoded_transfer position (some (token, from, to, amount)) =
    record { log_index_in_vec = position; token = token; from = from; to = to; amount = amount }
    ∷ []

-- `u32::try_from` of a log index.
abbrev pub log_index_from : ℕ → Result IngestionError ℕ
log_index_from n = if ltb n u32_mod then ok n else err (unsupported_feature (log_index_too_large n))

-- The body of the loop over a call's logs.
unfoldable pub process_log : ℕ → CallPath → RawLog → Accumulator → Result IngestionError Accumulator
unfolding parse_hex_u64 parse_address parse_word parse_hex_bytes try_decode_token_transfer
process_log this_index path log acc = parse_hex_u64 "log.logIndex" log.log_index >>= λ raw_index.
    if contains acc.seen_log_indices raw_index
    then err (duplicate_log_index raw_index)
    else parse_address "log.address" log.address >>= λ address.
        collect (parse_word "log.topics[]") log.topics >>= λ topics.
        if ltb 4 (length topics)
        then err (unsupported_feature (too_many_topics path))
        else parse_hex_bytes "log.data" log.bytes >>= λ bytes.
            log_index_from raw_index >>= λ log_index. ok (record acc {
              seen_log_indices = raw_index ∷ acc.seen_log_indices;
              token_transfers =
                  acc.token_transfers
                  ++ decoded_transfer (length acc.logs)
                      (try_decode_token_transfer address topics bytes);
              logs =
                  acc.logs
                  ++ record {
                    call_index = this_index;
                    address = address;
                    topics = topics;
                    bytes = bytes;
                    log_index = log_index;
                  }
                    ∷ [];
            })

unfoldable pub process_logs :
    ℕ → CallPath → List RawLog → Accumulator → Result IngestionError Accumulator
unfolding process_log
process_logs this_index path [] acc = ok acc
process_logs this_index path (log ∷ logs) acc =
    process_log this_index path log acc >>= process_logs this_index path logs
