-- ===== src/Ingestion/Build/Valid.antt =====
-- Every trace that is built is well formed, and its ids are positions.
use rootcause.Prelude.{
  ◌≤◌, ◌≡◌, sym, ap, ◌∙◌, inl, inr, some, List, [], ◌∷◌, ◌++◌, ok, >>=-eq-ok, length, length-append,
  get_elem?, Bool-cases, arith, ltb, ltb→lt, nat_Eq, list_Eq,
}
use rootcause.Facts.Types.{
  StorageChangeId, TokenTransferId, CallId, LogId, new_call, StorageChange, new_log, TokenTransfer,
}
use rootcause.Facts.Arena.{
  FactArena, FactArenaBuilder, new_builder, next_call_id, next_log_id, next_storage_change_id,
  next_token_transfer_id, add_call, add_storage_change, add_log, add_token_transfer, u32_mod,
}
use rootcause.Facts.Arena
use rootcause.Facts.Arena.Valid.{WellFormed, build-WellFormed}
use rootcause.Facts.Arena.Ids.{IdsFrom, LogIdsFrom, IsIndexed, add_call-IdsFrom, add_log-LogIdsFrom}
use rootcause.Facts.Trace.{TraceSource, Trace}
use rootcause.Ingestion.Normalize.{
  NormalizedCall, NormalizedStorageChange, NormalizedLog, NormalizedTokenTransfer,
}
use rootcause.Ingestion.Normalize.Walk.{NormalizedTrace}
use rootcause.Ingestion.Build.{
  or_panic, constructed, arena_constructed, parent_of, select, add_calls, add_storage_changes,
  add_logs, add_token_transfers, trace_of, build,
}
use rootcause.Ingestion.Build.Made.{
  or_panic-some, constructed-ok, arena_constructed-ok, new_call-id, new_log-id, trace_of-arena,
}

-- What the loops keep of a builder: ids are positions, and the positions fit a u32.
record Indexed (b : FactArenaBuilder) : Type 0 where
  call_ids : IdsFrom 0 b.calls
  log_ids : LogIdsFrom 0 b.logs
  few_changes : length b.storage_changes ≤ u32_mod
  few_transfers : length b.token_transfers ≤ u32_mod

add_calls-Indexed :
    (ncs : List NormalizedCall) (ids : List CallId) (b : FactArenaBuilder)
    (result : List CallId × FactArenaBuilder)
    → Indexed b
    → add_calls ncs ids b ≡ ok result
    → Indexed result.1
unfolding add_calls add_call
add_calls-Indexed [] ids b result ix h = let same : (ids, b) ≡ result = cc in rw (← same) ix
add_calls-Indexed (nc ∷ ncs) ids b result ix h =
    let (id, fresh, h₁) = >>=-eq-ok (or_panic (next_call_id b)) _ h in
    let (parent, _, h₂) = >>=-eq-ok (parent_of ids nc.parent_index) _ h₁ in
    let (c, made, h₃) =
      >>=-eq-ok
        (constructed (
          new_call id parent nc.kind nc.depth nc.from nc.to nc.value nc.gas_limit nc.gas_used
            nc.succeeded))
        _ h₂ in
    let carried = new_call-id nc id parent c (constructed-ok _ c made) in
    let free = or_panic-some (next_call_id b) id fresh in
    let call = select nc.selector c in
    add_calls-Indexed ncs (ids ++ id ∷ []) (add_call b call).1 result
      (record {
        call_ids = add_call-IdsFrom b call ix.call_ids (free ∙ ap some (sym carried));
        log_ids = ix.log_ids;
        few_changes = ix.few_changes;
        few_transfers = ix.few_transfers;
      })
      h₃

-- A storage change is added while its position fits a u32.
add_storage_change-Indexed :
    (b : FactArenaBuilder) (change : StorageChange) (result : StorageChangeId × FactArenaBuilder)
    → Indexed b
    → add_storage_change b change ≡ some result
    → Indexed result.1
unfolding add_storage_change next_storage_change_id
add_storage_change-Indexed b change result ix h =
    elim (Bool-cases (ltb (length b.storage_changes) u32_mod)) [
      | inr full ↦ absurd (let stuck = rw (add_storage_change, full) at h in cc)
      | inl room ↦
          let added = rw (add_storage_change, room) at h in
          let next = record b { storage_changes = b.storage_changes ++ change ∷ [] } in
          let same : (length b.storage_changes, next) ≡ result = cc in
          rw (← same) (record {
            call_ids = ix.call_ids;
            log_ids = ix.log_ids;
            few_changes =
                omega (arith, length-append b.storage_changes (change ∷ []), ltb→lt _ _ room);
            few_transfers = ix.few_transfers;
          })
    ]

add_token_transfer-Indexed :
    (b : FactArenaBuilder) (transfer : TokenTransfer) (result : TokenTransferId × FactArenaBuilder)
    → Indexed b
    → add_token_transfer b transfer ≡ some result
    → Indexed result.1
unfolding add_token_transfer next_token_transfer_id
add_token_transfer-Indexed b transfer result ix h =
    elim (Bool-cases (ltb (length b.token_transfers) u32_mod)) [
      | inr full ↦ absurd (let stuck = rw (add_token_transfer, full) at h in cc)
      | inl room ↦
          let added = rw (add_token_transfer, room) at h in
          let next = record b { token_transfers = b.token_transfers ++ transfer ∷ [] } in
          let same : (length b.token_transfers, next) ≡ result = cc in
          rw (← same) (record {
            call_ids = ix.call_ids;
            log_ids = ix.log_ids;
            few_changes = ix.few_changes;
            few_transfers =
                omega (arith, length-append b.token_transfers (transfer ∷ []), ltb→lt _ _ room);
          })
    ]

add_storage_changes-Indexed :
    (scs : List NormalizedStorageChange) (ids : List CallId) (b result : FactArenaBuilder)
    → Indexed b
    → add_storage_changes ids scs b ≡ ok result
    → Indexed result
unfolding add_storage_changes
add_storage_changes-Indexed [] ids b result ix h = let same : b ≡ result = cc in rw (← same) ix
add_storage_changes-Indexed (sc ∷ scs) ids b result ix h =
    let (call_id, _, h₁) = >>=-eq-ok (or_panic (get_elem? ids sc.call_index)) _ h in
    let ((id, next), added, h₂) = >>=-eq-ok (or_panic (add_storage_change b _)) _ h₁ in
    add_storage_changes-Indexed scs ids next result
      (add_storage_change-Indexed b _ (id, next) ix
        (or_panic-some (add_storage_change b _) (id, next) added))
      h₂

add_logs-Indexed :
    (logs : List NormalizedLog) (ids : List CallId) (log_ids : List LogId) (b : FactArenaBuilder)
    (result : List LogId × FactArenaBuilder)
    → Indexed b
    → add_logs ids logs log_ids b ≡ ok result
    → Indexed result.1
unfolding add_logs add_log
add_logs-Indexed [] ids log_ids b result ix h =
    let same : (log_ids, b) ≡ result = cc in rw (← same) ix
add_logs-Indexed (log ∷ logs) ids log_ids b result ix h =
    let (call_id, _, h₁) = >>=-eq-ok (or_panic (get_elem? ids log.call_index)) _ h in
    let (id, fresh, h₂) = >>=-eq-ok (or_panic (next_log_id b)) _ h₁ in
    let (l, made, h₃) =
      >>=-eq-ok (constructed (new_log id call_id log.address log.topics log.bytes log.log_index)) _
        h₂ in
    let carried = new_log-id log id call_id l (constructed-ok _ l made) in
    let free = or_panic-some (next_log_id b) id fresh in
    add_logs-Indexed logs ids (log_ids ++ id ∷ []) (add_log b l).1 result
      (record {
        call_ids = ix.call_ids;
        log_ids = add_log-LogIdsFrom b l ix.log_ids (free ∙ ap some (sym carried));
        few_changes = ix.few_changes;
        few_transfers = ix.few_transfers;
      })
      h₃

add_token_transfers-Indexed :
    (ts : List NormalizedTokenTransfer) (log_ids : List LogId) (b result : FactArenaBuilder)
    → Indexed b
    → add_token_transfers log_ids ts b ≡ ok result
    → Indexed result
unfolding add_token_transfers
add_token_transfers-Indexed [] log_ids b result ix h = let same : b ≡ result = cc in rw (← same) ix
add_token_transfers-Indexed (t ∷ ts) log_ids b result ix h =
    let (log_id, _, h₁) = >>=-eq-ok (or_panic (get_elem? log_ids t.log_index_in_vec)) _ h in
    let ((id, next), added, h₂) = >>=-eq-ok (or_panic (add_token_transfer b _)) _ h₁ in
    add_token_transfers-Indexed ts log_ids next result
      (add_token_transfer-Indexed b _ (id, next) ix
        (or_panic-some (add_token_transfer b _) (id, next) added))
      h₂

new_builder-Indexed : Indexed new_builder
unfolding new_builder
new_builder-Indexed = record {
  call_ids = tt;
  log_ids = tt;
  few_changes = omega arith;
  few_transfers = omega arith;
}

-- Every trace that `build` returns is well formed, with one root that comes first, every parent
-- earlier and one level up and every reference in range, and its ids are positions.
pub build-IsIndexed :
    (n : NormalizedTrace) (source : TraceSource) (t : Trace)
    → build n source ≡ ok t
    → WellFormed t.arena × IsIndexed t.arena
unfolding build
build-IsIndexed n source t h =
    let ((ids, b₁), calls, h₁) = >>=-eq-ok (add_calls n.calls [] new_builder) _ h in
    let (b₂, changes, h₂) = >>=-eq-ok (add_storage_changes ids n.storage_changes b₁) _ h₁ in
    let ((log_ids, b₃), logs, h₃) = >>=-eq-ok (add_logs ids n.logs [] b₂) _ h₂ in
    let (b, transfers, h₄) = >>=-eq-ok (add_token_transfers log_ids n.token_transfers b₃) _ h₃ in
    let (arena, built, h₅) = >>=-eq-ok (arena_constructed (Arena.build b)) (trace_of n source) h₄ in
    let ix₁ = add_calls-Indexed n.calls [] new_builder (ids, b₁) new_builder-Indexed calls in
    let ix₂ = add_storage_changes-Indexed n.storage_changes ids b₁ b₂ ix₁ changes in
    let ix₃ = add_logs-Indexed n.logs ids [] b₂ (log_ids, b₃) ix₂ logs in
    let ix = add_token_transfers-Indexed n.token_transfers log_ids b₃ b ix₃ transfers in
    let (same, well) =
      build-WellFormed b arena (arena_constructed-ok (Arena.build b) arena built) in
    let kept = trace_of-arena n source arena t h₅ in
    rw kept (
      well,
      rw same (record {
        call_ids = ix.call_ids;
        log_ids = ix.log_ids;
        few_changes = ix.few_changes;
        few_transfers = ix.few_transfers;
      }),
    )
