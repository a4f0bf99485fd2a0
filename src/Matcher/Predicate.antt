-- ===== src/Matcher/Predicate.antt =====
-- crates/matcher/src/predicate.rs: the facts that satisfy one evidence clause's predicate.
pub mod Sound
pub mod Placed
pub mod Positioned
use rootcause.Prelude.{
  ℕ, Bool, true, false, ◌&&◌, ◌||◌, Option, none, some, List, [], ◌∷◌, map, String, ◌==◌, nat_Eq,
  string_Eq, list_Eq, option_Eq, bool_Eq, filter, any, head?, if◌then◌else◌,
}
use rootcause.Prelude.Int.{ℤ}
use rootcause.Facts.Types.{
  Address, Word, Call, StorageChangeId, StorageChange, is_net_change, LogEvent, TokenTransferId,
  TokenTransfer, TxStatus, success, reverted, ValueFlow, call_ref, storage_change_ref, log_ref,
  token_transfer_ref,
}
use rootcause.Facts.Arena.{
  FactArena, root_call, call, log, storage_changes_with_ids, token_transfers_with_ids, value_flows,
}
use rootcause.Facts.Trace.{Trace}
use rootcause.Dsl.Ir.{CompiledPredicate}
use rootcause.Matcher.Binding.{Binding}
use rootcause.Matcher.Identity.{call_index, log_call}
use rootcause.Matcher.Index.{TraceIndex, is_reentrant}
use rootcause.Matcher.Hex.{parse_hex_word, parse_hex_selector, parse_address}
use rootcause.Matcher.Ancestry.{call_kind_matches, has_ancestor_of_kind}
use rootcause.Matcher.Attrs.{
  ident, bool_attr, int_attr, str_attr, has_attr, accepts, saturate_i128, at_least, at_most,
  accepts_parsed,
}
use rootcause.Matcher.Order.{sort_by_order}

abbrev pub map_option {ℓ κ} : {A : Type ℓ} {B : Type κ} → (A → B) → Option A → Option B
map_option f none = none
map_option f (some a) = some (f a)

-- The transaction's sender, against whom directions are read.
abbrev pub anchor : Trace → Address
anchor t = t.transaction.from

-- `In` is to the anchor, `Out` from it; `to` may be missing.
direction_ok : Address → Address → Option Address → String → Bool
direction_ok anchor_addr from to dir =
    if dir == "In"
    then to == some anchor_addr
    else if dir == "Out"
    then from == anchor_addr
    else false

-- The parent's kind, one hop up.
parent_kind_ok : Trace → Call → String → Bool
unfolding call call_kind_matches
parent_kind_ok t c kind = elim c.parent [
  | none ↦ false
  | some p ↦ elim (call t.arena p) [
    | none ↦ false
    | some parent ↦ call_kind_matches parent.kind kind
  ]
]

-- The filters of `evaluate_call`, in their order.
unfoldable pub call_matches : Trace → TraceIndex → CompiledPredicate → Call → Bool
unfolding direction_ok parent_kind_ok call_kind_matches is_reentrant has_ancestor_of_kind
    parse_hex_selector ident bool_attr int_attr str_attr
call_matches t index p c =
    accepts (ident p "kind") (λ k. call_kind_matches c.kind k)
    && accepts (bool_attr p "reentrant") (λ want. is_reentrant index c.id == want)
    && accepts (ident p "value_flow") (λ dir. direction_ok (anchor t) c.from c.to dir)
    && accepts (int_attr p "min_value") (λ min. at_least (saturate_i128 c.value) min)
    && accepts_parsed (map_option parse_hex_selector (str_attr p "selector"))
        (λ selector. c.selector == some selector)
    && accepts (bool_attr p "succeeded") (λ want. c.succeeded == want)
    && accepts (ident p "parent_kind") (λ k. parent_kind_ok t c k)
    && accepts (ident p "ancestor_kind") (λ k. has_ancestor_of_kind t c.id k)

call_binding : Call → Binding
call_binding c = record { fact = call_ref c.id; order = some c.id; unresolved_attrs = [] }

pub evaluate_call : Trace → TraceIndex → CompiledPredicate → List Binding
unfolding call_matches call_binding
evaluate_call t index p = map call_binding (filter (call_matches t index p) t.arena.calls)

-- A change's call, dereferenced to its kind.
call_kind_ok : Trace → StorageChange → String → Bool
unfolding call call_kind_matches
call_kind_ok t change kind = elim (call t.arena change.call_id) [
  | none ↦ false
  | some c ↦ call_kind_matches c.kind kind
]

storage_matches : Trace → CompiledPredicate → (StorageChangeId × StorageChange) → Bool
unfolding call_kind_ok is_net_change parse_hex_word ident bool_attr str_attr
storage_matches t p (id, change) =
    accepts (bool_attr p "changed") (λ want. is_net_change change == want)
    && accepts_parsed (map_option parse_hex_word (str_attr p "slot"))
        (λ word. change.slot.key == word)
    && accepts (ident p "call_kind") (λ k. call_kind_ok t change k)

storage_binding : Trace → CompiledPredicate → (StorageChangeId × StorageChange) → Binding
unfolding call has_attr
storage_binding t p (id, change) = record {
  fact = storage_change_ref id;
  order = call_index t.arena (some change.call_id);
  unresolved_attrs = if has_attr p "role" then "role" ∷ [] else [];
}

pub evaluate_storage : Trace → CompiledPredicate → List Binding
unfolding storage_matches storage_binding storage_changes_with_ids
evaluate_storage t p =
    map (storage_binding t p) (filter (storage_matches t p) (storage_changes_with_ids t.arena))

flow_matches : Trace → CompiledPredicate → ValueFlow → Bool
unfolding direction_ok ident int_attr
flow_matches t p flow =
    accepts (ident p "direction") (λ dir. direction_ok (anchor t) flow.from flow.to dir)
    && accepts (int_attr p "min") (λ min. at_least (saturate_i128 flow.amount) min)
    && accepts (int_attr p "max") (λ max. at_most (saturate_i128 flow.amount) max)

flow_binding : ValueFlow → Binding
flow_binding flow = record {
  fact = call_ref flow.call_id;
  order = some flow.call_id;
  unresolved_attrs = [];
}

pub evaluate_value_flow : Trace → CompiledPredicate → List Binding
unfolding flow_matches flow_binding value_flows
evaluate_value_flow t p = map flow_binding (filter (flow_matches t p) (value_flows t.arena))

transfer_matches : Trace → CompiledPredicate → (TokenTransferId × TokenTransfer) → Bool
unfolding direction_ok parse_address ident str_attr
transfer_matches t p (id, transfer) =
    accepts (ident p "direction")
      (λ dir. direction_ok (anchor t) transfer.from (some transfer.to) dir)
    && accepts_parsed (map_option parse_address (str_attr p "token"))
        (λ token. transfer.token == token)

transfer_binding : Trace → CompiledPredicate → (TokenTransferId × TokenTransfer) → Binding
unfolding call log has_attr
transfer_binding t p (id, transfer) = record {
  fact = token_transfer_ref id;
  order = call_index t.arena (log_call (log t.arena transfer.log_id));
  unresolved_attrs = if has_attr p "unexpected" then "unexpected" ∷ [] else [];
}

pub evaluate_token_transfer : Trace → CompiledPredicate → List Binding
unfolding transfer_matches transfer_binding token_transfers_with_ids
evaluate_token_transfer t p =
    map (transfer_binding t p) (filter (transfer_matches t p) (token_transfers_with_ids t.arena))

status_is : TxStatus → String → Bool
status_is success s = s == "Success"
status_is reverted s = s == "Reverted"

-- `status_ok && gas_ok`
transaction_matches : Trace → CompiledPredicate → Bool
unfolding status_is ident int_attr
transaction_matches t p =
    accepts (ident p "status") (λ s. status_is t.transaction.status s)
    && accepts (int_attr p "gas_used_min") (λ min. at_least t.transaction.gas_used min)

-- The transaction stands for itself by its root call, with no position. An arena has a root call,
-- so the `none` case, an index out of range in the source, is not met.
pub evaluate_transaction : Trace → CompiledPredicate → List Binding
unfolding transaction_matches root_call
evaluate_transaction t p =
    if transaction_matches t p
    then elim (root_call t.arena) [
      | none ↦ []
      | some c ↦ record { fact = call_ref c.id; order = none; unresolved_attrs = [] } ∷ []
    ]
    else []

log_matches : Trace → CompiledPredicate → LogEvent → Bool
unfolding parse_hex_word bool_attr str_attr
log_matches t p l =
    accepts_parsed (map_option parse_hex_word (str_attr p "topic0"))
      (λ word. head? l.topics == some word)
    && accepts (bool_attr p "decoded")
        (λ want. any (λ (x : TokenTransfer). x.log_id == l.id) t.arena.token_transfers == want)

log_binding : Trace → LogEvent → Binding
unfolding call
log_binding t l = record {
  fact = log_ref l.id;
  order = call_index t.arena (some l.call_id);
  unresolved_attrs = [];
}

pub evaluate_log : Trace → CompiledPredicate → List Binding
unfolding log_matches log_binding
evaluate_log t p = map (log_binding t) (filter (log_matches t p) t.arena.logs)

-- The `match` on the kind; a kind outside the schema matches nothing.
pub dispatch : Trace → TraceIndex → CompiledPredicate → List Binding
unfolding evaluate_call evaluate_storage evaluate_value_flow evaluate_token_transfer
    evaluate_transaction evaluate_log
dispatch t index p =
    if p.kind == "call"
    then evaluate_call t index p
    else if p.kind == "storage"
    then evaluate_storage t p
    else if p.kind == "value_flow"
    then evaluate_value_flow t p
    else if p.kind == "token_transfer"
    then evaluate_token_transfer t p
    else if p.kind == "transaction"
    then evaluate_transaction t p
    else if p.kind == "log"
    then evaluate_log t p
    else []

unfoldable pub evaluate : Trace → TraceIndex → CompiledPredicate → List Binding
unfolding dispatch sort_by_order
evaluate t index p = sort_by_order (dispatch t index p)
