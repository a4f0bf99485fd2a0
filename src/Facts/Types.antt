-- ===== src/Facts/Types.antt =====
-- The plain facts of crates/fact-model/src: primitives.rs, ids.rs, call.rs, storage.rs, log.rs,
-- transaction.rs, block.rs, value_flow.rs and error.rs.
--
-- A byte array is the list of its bytes, a newtype over an unsigned integer is a number, and so is
-- an arena id. What the source keeps private is not hidden here.
use rootcause.Prelude.{
  ℕ, Bool, true, false, not, ◌&&◌, Option, none, some, List, Result, ok, err, String, ltb, ◌==◌,
  if◌then◌else◌, length, ◌≡◌, ◌↔◌, Eq, nat_Eq, list_Eq, arith,
}

abbrev pub Address : Type 0
Address = List ℕ

abbrev pub Word : Type 0
Word = List ℕ

abbrev pub TxHash : Type 0
TxHash = Word

abbrev pub Wei : Type 0
Wei = ℕ

abbrev pub Gas : Type 0
Gas = ℕ

abbrev pub CallId : Type 0
CallId = ℕ

abbrev pub StorageChangeId : Type 0
StorageChangeId = ℕ

abbrev pub LogId : Type 0
LogId = ℕ

abbrev pub TokenTransferId : Type 0
TokenTransferId = ℕ

-- A reference to one fact of any kind.
pub data FactRef : Type 0 where
  call_ref : CallId → FactRef
  storage_change_ref : StorageChangeId → FactRef
  log_ref : LogId → FactRef
  token_transfer_ref : TokenTransferId → FactRef

abbrev pub fact_eq : FactRef → FactRef → Bool
fact_eq (call_ref a) (call_ref b) = a == b
fact_eq (storage_change_ref a) (storage_change_ref b) = a == b
fact_eq (log_ref a) (log_ref b) = a == b
fact_eq (token_transfer_ref a) (token_transfer_ref b) = a == b
fact_eq _ _ = false

pub fact_eq_iff : (a b : FactRef) → (fact_eq a b ≡ true) ↔ (a ≡ b)
fact_eq_iff (call_ref a) b = ground arith
fact_eq_iff _ b = ground arith

instance abbrev pub fact_Eq : Eq FactRef
fact_Eq = record { eqb = fact_eq; eqb_iff = fact_eq_iff }

pub data CallKind : Type 0 where
  call static_call delegate_call call_code create create2 selfdestruct : CallKind

unfoldable pub can_carry_value : CallKind → Bool
can_carry_value static_call = false
can_carry_value _ = true

unfoldable pub executes_in_caller_context : CallKind → Bool
executes_in_caller_context delegate_call = true
executes_in_caller_context call_code = true
executes_in_caller_context _ = false

-- One EVM-level call; `to` is missing where an address was never assigned.
pub record Call : Type 0 where
  pub id : CallId
  pub parent : Option CallId
  pub kind : CallKind
  pub depth : ℕ  -- u16
  pub from : Address
  pub to : Option Address
  pub value : Wei
  pub gas_limit : Gas
  pub gas_used : Gas
  pub succeeded : Bool
  pub selector : Option (List ℕ)

-- `Call::new`: a static call moves no value.
unfoldable pub new_call :
    CallId
    → Option CallId
    → CallKind
    → ℕ
    → Address
    → Option Address
    → Wei
    → Gas
    → Gas
    → Bool
    → Result String Call
unfolding can_carry_value
new_call id parent kind depth from to value gas_limit gas_used succeeded =
    if not (can_carry_value kind) && not (value == 0)
    then err "a StaticCall cannot carry a nonzero value transfer"
    else ok (record {
      id = id;
      parent = parent;
      kind = kind;
      depth = depth;
      from = from;
      to = to;
      value = value;
      gas_limit = gas_limit;
      gas_used = gas_used;
      succeeded = succeeded;
      selector = none;
    })

unfoldable pub with_selector : Call → List ℕ → Call
with_selector c s = record c { selector = some s }

pub record StorageSlot : Type 0 where
  pub contract : Address
  pub key : Word

-- A storage write, cited by its position in the arena.
pub record StorageChange : Type 0 where
  pub call_id : CallId
  pub slot : StorageSlot
  pub before : Word
  pub after : Word

unfoldable pub is_net_change : StorageChange → Bool
is_net_change change = not (change.before == change.after)

pub record LogEvent : Type 0 where
  pub id : LogId
  pub call_id : CallId
  pub address : Address
  pub topics : List Word
  pub bytes : List ℕ  -- the field `data`
  pub log_index : ℕ  -- u32

-- `LogEvent::new`: LOG0 to LOG4 carry at most four topics.
unfoldable pub new_log : LogId → CallId → Address → List Word → List ℕ → ℕ → Result String LogEvent
new_log id call_id address topics bytes log_index =
    if ltb 4 (length topics)
    then err "an EVM log can have at most 4 topics (LOG0..LOG4)"
    else ok (record {
      id = id;
      call_id = call_id;
      address = address;
      topics = topics;
      bytes = bytes;
      log_index = log_index;
    })

pub record TokenTransfer : Type 0 where
  pub log_id : LogId
  pub token : Address
  pub from : Address
  pub to : Address
  pub amount : Wei

pub data TxStatus : Type 0 where
  success reverted : TxStatus

pub record Transaction : Type 0 where
  pub hash : TxHash
  pub from : Address
  pub to : Option Address
  pub value : Wei
  pub nonce : ℕ
  pub gas_used : Gas
  pub status : TxStatus

pub record BlockContext : Type 0 where
  pub number : ℕ
  pub timestamp : ℕ
  pub chain_id : ℕ
  pub base_fee : Option Wei

-- Native value moved by a call; a view, never stored.
pub record ValueFlow : Type 0 where
  pub call_id : CallId
  pub from : Address
  pub to : Option Address
  pub amount : Wei

-- `ValueFlow::from_call`
unfoldable pub flow_of_call : Call → Option ValueFlow
flow_of_call c =
    if c.value == 0
    then none
    else some (record { call_id = c.id; from = c.from; to = c.to; amount = c.value })

-- The ways in which a builder's facts can be inconsistent.
pub data FactModelError : Type 0 where
  empty_call_list : FactModelError
  multiple_root_calls : CallId → CallId → FactModelError
  first_call_is_not_root : CallId → FactModelError
  parent_not_yet_seen : CallId → CallId → FactModelError
  inconsistent_call_depth : CallId → CallId → ℕ → ℕ → ℕ → FactModelError
  storage_change_references_unknown_call : StorageChangeId → CallId → FactModelError
  log_references_unknown_call : LogId → CallId → FactModelError
  token_transfer_references_unknown_log : LogId → FactModelError
