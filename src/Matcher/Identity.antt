-- ===== src/Matcher/Identity.antt =====
-- crates/matcher/src/identity.rs and ordering.rs: the call that produced a fact, and the position
-- of that call in execution order.
use rootcause.Prelude.{
  ℕ, ◌<◌, ◌≡◌, refl, Option, none, some, length, get_elem?_of_lt, arith, ap, All-get_elem?,
}
use rootcause.Facts.Types.{
  CallId, FactRef, call_ref, storage_change_ref, log_ref, token_transfer_ref, StorageChange,
  LogEvent, TokenTransfer,
}
use rootcause.Facts.Arena.{FactArena, call, storage_change, log, token_transfer}
use rootcause.Facts.Arena.Valid.{WellFormed}
use rootcause.Facts.Arena.Ids.{IdsFrom, IdsFrom-get_elem?}
use rootcause.Facts.Trace.{Trace}

abbrev pub log_call : Option LogEvent → Option CallId
log_call none = none
log_call (some l) = some l.call_id

abbrev pub change_call : Option StorageChange → Option CallId
change_call none = none
change_call (some change) = some change.call_id

abbrev pub transfer_log : FactArena → Option TokenTransfer → Option LogEvent
transfer_log a none = none
transfer_log a (some t) = log a t.log_id

-- identity.rs `producing_call`
unfoldable pub producing_call : Trace → FactRef → Option CallId
producing_call t (call_ref id) = some id
producing_call t (storage_change_ref id) = change_call (storage_change t.arena id)
producing_call t (log_ref id) = log_call (log t.arena id)
producing_call t (token_transfer_ref id) =
    log_call (transfer_log t.arena (token_transfer t.arena id))

-- `trace.arena.call(id).map(|c| c.id.index())`, after `and_then`.
abbrev pub call_index : FactArena → Option CallId → Option ℕ
call_index a none = none
call_index a (some id) = elim (call a id) [ none ↦ none | some c ↦ some c.id ]

-- ordering.rs `order_key`
unfoldable pub order_key : Trace → FactRef → Option ℕ
order_key t (call_ref id) = call_index t.arena (some id)
order_key t (storage_change_ref id) = call_index t.arena (change_call (storage_change t.arena id))
order_key t (log_ref id) = call_index t.arena (log_call (log t.arena id))
order_key t (token_transfer_ref id) =
    call_index t.arena (log_call (transfer_log t.arena (token_transfer t.arena id)))

-- engine.rs of the grounding crate, `fact_resolves`
abbrev pub Resolves : FactArena → FactRef → Type 0
Resolves a (call_ref id) = id < length a.calls
Resolves a (storage_change_ref id) = id < length a.storage_changes
Resolves a (log_ref id) = id < length a.logs
Resolves a (token_transfer_ref id) = id < length a.token_transfers

call_index_self :
    (a : FactArena) (id : CallId)
    → IdsFrom 0 a.calls
    → id < length a.calls
    → call_index a (some id) ≡ some id
unfolding call
call_index_self a id ids h =
    let (c, found) = get_elem?_of_lt a.calls id h in
    let same : c.id ≡ id = omega (arith, IdsFrom-get_elem? 0 a.calls id c ids found) in
    rw (found, call_index) (ap some same)

-- In a well-formed arena whose ids are positions, a fact that exists has a producing call, that
-- call exists, and the fact's order key is its id.
pub order_key-eq-producing_call :
    (t : Trace) (f : FactRef)
    → WellFormed t.arena
    → IdsFrom 0 t.arena.calls
    → Resolves t.arena f
    → (id : CallId) × (producing_call t f ≡ some id)
      × (order_key t f ≡ some id)
      × (id < length t.arena.calls)
unfolding producing_call order_key storage_change log token_transfer
order_key-eq-producing_call t (call_ref id) w ids h =
    (id, refl, call_index_self t.arena id ids h, h)
order_key-eq-producing_call t (storage_change_ref id) w ids h =
    let (change, found) = get_elem?_of_lt t.arena.storage_changes id h in
    let low = All-get_elem? _ t.arena.storage_changes id change w.changes_resolve found in
    (change.call_id, rw found, rw found (call_index_self t.arena change.call_id ids low), low)
order_key-eq-producing_call t (log_ref id) w ids h =
    let (l, found) = get_elem?_of_lt t.arena.logs id h in
    let low = All-get_elem? _ t.arena.logs id l w.logs_resolve found in
    (l.call_id, rw found, rw found (call_index_self t.arena l.call_id ids low), low)
order_key-eq-producing_call t (token_transfer_ref id) w ids h =
    let (x, found) = get_elem?_of_lt t.arena.token_transfers id h in
    let in_logs = All-get_elem? _ t.arena.token_transfers id x w.transfers_resolve found in
    let (l, found_log) = get_elem?_of_lt t.arena.logs x.log_id in_logs in
    let low = All-get_elem? _ t.arena.logs x.log_id l w.logs_resolve found_log in
    (
      l.call_id,
      rw (found, found_log),
      rw (found, found_log) (call_index_self t.arena l.call_id ids low),
      low,
    )
