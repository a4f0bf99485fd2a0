-- ===== src/Ingestion/Build/Made.antt =====
-- The calls, logs and traces that the checked constructors make for `build`.
use rootcause.Prelude.{
  ℕ, ◌≡◌, refl, sym, ap, ◌∙◌, inl, inr, Option, none, some, List, Result, ok, err, length,
  Bool-cases, ltb, not, ◌&&◌, ◌==◌, nat_Eq, list_Eq, nat_eq_iff, true, String,
}
use rootcause.Facts.Types.{
  FactModelError, CallId, LogId, Call, new_call, with_selector, LogEvent, new_log, can_carry_value,
}
use rootcause.Facts.Arena.{FactArena}
use rootcause.Facts.Trace.{TraceSource, Trace, new_trace}
use rootcause.Ingestion.Normalize.{NormalizedCall, NormalizedLog}
use rootcause.Ingestion.Normalize.Walk.{NormalizedTrace}
use rootcause.Ingestion.Build.{or_panic, constructed, arena_constructed, select, trace_of}

pub or_panic-some {ℓ} : {A : Type ℓ} (o : Option A) (a : A) → or_panic o ≡ ok a → o ≡ some a
or_panic-some none a h = absurd (cc)
or_panic-some (some x) a h = cc

pub constructed-ok {ℓ} :
    {A : Type ℓ} (r : Result String A) (a : A) → constructed r ≡ ok a → r ≡ ok a
constructed-ok (ok x) a h = cc
constructed-ok (err e) a h = absurd (cc)

pub arena_constructed-ok {ℓ} :
    {A : Type ℓ} (r : Result FactModelError A) (a : A) → arena_constructed r ≡ ok a → r ≡ ok a
arena_constructed-ok (ok x) a h = cc
arena_constructed-ok (err e) a h = absurd (cc)

-- The call that `build` makes of a normalized call.
abbrev pub call_of : CallId → Option CallId → NormalizedCall → Call
call_of id parent nc = record {
  id = id;
  parent = parent;
  kind = nc.kind;
  depth = nc.depth;
  from = nc.from;
  to = nc.to;
  value = nc.value;
  gas_limit = nc.gas_limit;
  gas_used = nc.gas_used;
  succeeded = nc.succeeded;
  selector = none;
}

pub select-id : (s : Option (List ℕ)) (c : Call) → (select s c).id ≡ c.id
unfolding with_selector select
select-id none c = refl
select-id (some s) c = refl

-- The id that a constructed call carries is the one it was given.
pub new_call-id :
    (nc : NormalizedCall) (id : CallId) (parent : Option CallId) (c : Call)
    → new_call id parent nc.kind nc.depth nc.from nc.to nc.value nc.gas_limit nc.gas_used
        nc.succeeded
      ≡ ok c
    → (select nc.selector c).id ≡ id
unfolding new_call
new_call-id nc id parent c h =
    elim (Bool-cases (not (can_carry_value nc.kind) && not (nc.value == 0))) [
      | inl refused ↦ absurd (let stuck = rw (refused, new_call) at h in cc)
      | inr accepted ↦
          let made = rw (accepted, new_call) at h in
          let same : call_of id parent nc ≡ c = cc in
          select-id nc.selector c ∙ ap (λ (x : Call). x.id) (sym same)
    ]

pub new_log-id :
    (log : NormalizedLog) (id : LogId) (call_id : CallId) (l : LogEvent)
    → new_log id call_id log.address log.topics log.bytes log.log_index ≡ ok l
    → l.id ≡ id
unfolding new_log
new_log-id log id call_id l h = elim (Bool-cases (ltb 4 (length log.topics))) [
  | inl refused ↦ absurd (let stuck = rw (refused, new_log) at h in cc)
  | inr accepted ↦
      let made = rw (accepted, new_log) at h in
      let event : LogEvent = record {
        id = id;
        call_id = call_id;
        address = log.address;
        topics = log.topics;
        bytes = log.bytes;
        log_index = log.log_index;
      } in
      let same : event ≡ l = cc in ap (λ (x : LogEvent). x.id) (sym same)
]

-- The trace of an arena.
abbrev pub made_of : NormalizedTrace → TraceSource → FactArena → Trace
made_of n source arena = record {
  metadata = record {
    transaction_hash = n.transaction_hash;
    chain_id = n.block_chain_id;
    block_number = n.block_number;
    source = source;
  };
  block = record {
    number = n.block_number;
    timestamp = n.block_timestamp;
    chain_id = n.block_chain_id;
    base_fee = n.block_base_fee;
  };
  transaction = record {
    hash = n.transaction_hash;
    from = n.transaction_from;
    to = n.transaction_to;
    value = n.transaction_value;
    nonce = n.transaction_nonce;
    gas_used = n.transaction_gas_used;
    status = n.transaction_status;
  };
  arena = arena;
}

-- The three checks of `Trace::new` compare each field with itself.
pub trace_of-ok :
    (n : NormalizedTrace) (source : TraceSource) (arena : FactArena)
    → trace_of n source arena ≡ ok (made_of n source arena)
unfolding trace_of new_trace
trace_of-ok n source arena =
    let hash : (n.transaction_hash == n.transaction_hash) ≡ true =
      (list_Eq.eqb_iff n.transaction_hash n.transaction_hash).1 refl in
    let chain : (n.block_chain_id == n.block_chain_id) ≡ true =
      (nat_eq_iff n.block_chain_id n.block_chain_id).1 refl in
    let number : (n.block_number == n.block_number) ≡ true =
      (nat_eq_iff n.block_number n.block_number).1 refl in
    rw (trace_of, new_trace, hash, chain, number)

pub trace_of-arena :
    (n : NormalizedTrace) (source : TraceSource) (arena : FactArena) (t : Trace)
    → trace_of n source arena ≡ ok t
    → t.arena ≡ arena
trace_of-arena n source arena t h =
    let accepted = trace_of-ok n source arena in
    let same : made_of n source arena ≡ t = cc in ap (λ (x : Trace). x.arena) (sym same)
