-- ===== src/Ingestion/Build/Small.antt =====
-- A builder that runs out of 32-bit positions panics, so what is built fits them.
use rootcause.Prelude.{
  length_snoc, ℕ, suc, ◌+◌, ◌≤◌, ◌<◌, ◌≡◌, refl, ◌⊎◌, inl, inr, some, List, [], ◌∷◌, ◌++◌, ok,
  >>=-eq-ok, length, get_elem?, ltb, ltb→lt, Bool-cases, arith,
}
use rootcause.Facts.Types.{
  CallId, LogId, StorageChange, TokenTransfer, new_call, new_log, StorageChangeId, TokenTransferId,
}
use rootcause.Facts.Arena.{
  FactArenaBuilder, new_builder, next_call_id, next_log_id, next_storage_change_id,
  next_token_transfer_id, add_call, add_storage_change, add_log, add_token_transfer, u32_mod,
}
use rootcause.Facts.Trace.{TraceSource, Trace}
use rootcause.Ingestion.Normalize.{
  NormalizedCall, NormalizedStorageChange, NormalizedLog, NormalizedTokenTransfer,
}
use rootcause.Ingestion.Normalize.Walk.{NormalizedTrace}
use rootcause.Ingestion.Build.{
  or_panic, constructed, parent_of, select, add_calls, add_storage_changes, add_logs,
  add_token_transfers, build,
}
use rootcause.Ingestion.Build.Made.{or_panic-some}
use rootcause.Ingestion.Build.Outcome.{IsSmall}

-- None is added, or all of them find a position after those before.
abbrev FitsAfter : ℕ → ℕ → Type 0
FitsAfter base more = (more ≡ 0) ⊎ (base + more ≤ u32_mod)

FitsAfter-suc :
    (base more after : ℕ)
    → base < u32_mod
    → after ≡ suc base
    → FitsAfter after more
    → FitsAfter base (suc more)
FitsAfter-suc base more after room grown (inl none_left) = inr (omega arith)
FitsAfter-suc base more after room grown (inr fits) = inr (omega arith)

FitsAfter-le : (base more : ℕ) → FitsAfter base more → more ≤ u32_mod
FitsAfter-le base more (inl none_left) = omega arith
FitsAfter-le base more (inr fits) = omega arith

next_call_id-room :
    (b : FactArenaBuilder) (id : CallId) → next_call_id b ≡ some id → length b.calls < u32_mod
unfolding next_call_id
next_call_id-room b id h = ground arith

next_log_id-room :
    (b : FactArenaBuilder) (id : LogId) → next_log_id b ≡ some id → length b.logs < u32_mod
unfolding next_log_id
next_log_id-room b id h = ground arith

add_calls-FitsAfter :
    (ncs : List NormalizedCall) (ids : List CallId) (b : FactArenaBuilder)
    (result : List CallId × FactArenaBuilder)
    → add_calls ncs ids b ≡ ok result
    → FitsAfter (length b.calls) (length ncs)
unfolding add_calls add_call
add_calls-FitsAfter [] ids b result h = inl refl
add_calls-FitsAfter (nc ∷ ncs) ids b result h =
    let (id, fresh, h₁) = >>=-eq-ok (or_panic (next_call_id b)) _ h in
    let (parent, _, h₂) = >>=-eq-ok (parent_of ids nc.parent_index) _ h₁ in
    let (c, _, h₃) =
      >>=-eq-ok
        (constructed (
          new_call id parent nc.kind nc.depth nc.from nc.to nc.value nc.gas_limit nc.gas_used
            nc.succeeded))
        _ h₂ in
    let next = select nc.selector c in
    FitsAfter-suc (length b.calls) (length ncs) (length (b.calls ++ next ∷ []))
      (next_call_id-room b id (or_panic-some (next_call_id b) id fresh)) (length_snoc b.calls next)
      (add_calls-FitsAfter ncs (ids ++ id ∷ []) (add_call b next).1 result h₃)

add_logs-FitsAfter :
    (logs : List NormalizedLog) (ids : List CallId) (log_ids : List LogId) (b : FactArenaBuilder)
    (result : List LogId × FactArenaBuilder)
    → add_logs ids logs log_ids b ≡ ok result
    → FitsAfter (length b.logs) (length logs)
unfolding add_logs add_log
add_logs-FitsAfter [] ids log_ids b result h = inl refl
add_logs-FitsAfter (log ∷ logs) ids log_ids b result h =
    let (call_id, _, h₁) = >>=-eq-ok (or_panic (get_elem? ids log.call_index)) _ h in
    let (id, fresh, h₂) = >>=-eq-ok (or_panic (next_log_id b)) _ h₁ in
    let (l, _, h₃) =
      >>=-eq-ok (constructed (new_log id call_id log.address log.topics log.bytes log.log_index)) _
        h₂ in
    FitsAfter-suc (length b.logs) (length logs) (length (b.logs ++ l ∷ []))
      (next_log_id-room b id (or_panic-some (next_log_id b) id fresh)) (length_snoc b.logs l)
      (add_logs-FitsAfter logs ids (log_ids ++ id ∷ []) (add_log b l).1 result h₃)

-- The position of an added change, and the builder after it.
add_storage_change-grown :
    (b : FactArenaBuilder) (change : StorageChange) (result : StorageChangeId × FactArenaBuilder)
    → add_storage_change b change ≡ some result
    → (length b.storage_changes < u32_mod)
      × (length result.1.storage_changes ≡ suc (length b.storage_changes))
unfolding add_storage_change next_storage_change_id
add_storage_change-grown b change result h =
    elim (Bool-cases (ltb (length b.storage_changes) u32_mod)) [
      | inr full ↦ absurd (let stuck = rw (add_storage_change, full) at h in cc)
      | inl room ↦
          let added = rw (add_storage_change, room) at h in
          let next = record b { storage_changes = b.storage_changes ++ change ∷ [] } in
          let same : (length b.storage_changes, next) ≡ result = cc in
          (ltb→lt _ _ room, rw (← same) (length_snoc b.storage_changes change))
    ]

add_token_transfer-grown :
    (b : FactArenaBuilder) (transfer : TokenTransfer) (result : TokenTransferId × FactArenaBuilder)
    → add_token_transfer b transfer ≡ some result
    → (length b.token_transfers < u32_mod)
      × (length result.1.token_transfers ≡ suc (length b.token_transfers))
unfolding add_token_transfer next_token_transfer_id
add_token_transfer-grown b transfer result h =
    elim (Bool-cases (ltb (length b.token_transfers) u32_mod)) [
      | inr full ↦ absurd (let stuck = rw (add_token_transfer, full) at h in cc)
      | inl room ↦
          let added = rw (add_token_transfer, room) at h in
          let next = record b { token_transfers = b.token_transfers ++ transfer ∷ [] } in
          let same : (length b.token_transfers, next) ≡ result = cc in
          (ltb→lt _ _ room, rw (← same) (length_snoc b.token_transfers transfer))
    ]

add_storage_changes-FitsAfter :
    (scs : List NormalizedStorageChange) (ids : List CallId) (b result : FactArenaBuilder)
    → add_storage_changes ids scs b ≡ ok result
    → FitsAfter (length b.storage_changes) (length scs)
unfolding add_storage_changes
add_storage_changes-FitsAfter [] ids b result h = inl refl
add_storage_changes-FitsAfter (sc ∷ scs) ids b result h =
    let (call_id, _, h₁) = >>=-eq-ok (or_panic (get_elem? ids sc.call_index)) _ h in
    let ((id, next), added, h₂) = >>=-eq-ok (or_panic (add_storage_change b _)) _ h₁ in
    let (room, grown) =
      add_storage_change-grown b _ (id, next)
        (or_panic-some (add_storage_change b _) (id, next) added) in
    FitsAfter-suc (length b.storage_changes) (length scs) (length next.storage_changes) room grown
      (add_storage_changes-FitsAfter scs ids next result h₂)

add_token_transfers-FitsAfter :
    (ts : List NormalizedTokenTransfer) (log_ids : List LogId) (b result : FactArenaBuilder)
    → add_token_transfers log_ids ts b ≡ ok result
    → FitsAfter (length b.token_transfers) (length ts)
unfolding add_token_transfers
add_token_transfers-FitsAfter [] log_ids b result h = inl refl
add_token_transfers-FitsAfter (t ∷ ts) log_ids b result h =
    let (log_id, _, h₁) = >>=-eq-ok (or_panic (get_elem? log_ids t.log_index_in_vec)) _ h in
    let ((id, next), added, h₂) = >>=-eq-ok (or_panic (add_token_transfer b _)) _ h₁ in
    let (room, grown) =
      add_token_transfer-grown b _ (id, next)
        (or_panic-some (add_token_transfer b _) (id, next) added) in
    FitsAfter-suc (length b.token_transfers) (length ts) (length next.token_transfers) room grown
      (add_token_transfers-FitsAfter ts log_ids next result h₂)

-- A trace is built only of facts that find their positions in a u32.
pub build-IsSmall :
    (n : NormalizedTrace) (source : TraceSource) (t : Trace) → build n source ≡ ok t → IsSmall n
unfolding build
build-IsSmall n source t h =
    let ((ids, b₁), calls, h₁) = >>=-eq-ok (add_calls n.calls [] new_builder) _ h in
    let (b₂, changes, h₂) = >>=-eq-ok (add_storage_changes ids n.storage_changes b₁) _ h₁ in
    let ((log_ids, b₃), logs, h₃) = >>=-eq-ok (add_logs ids n.logs [] b₂) _ h₂ in
    let (b, transfers, h₄) = >>=-eq-ok (add_token_transfers log_ids n.token_transfers b₃) _ h₃ in
    record {
      calls = FitsAfter-le _ _ (add_calls-FitsAfter n.calls [] new_builder (ids, b₁) calls);
      changes =
          FitsAfter-le _ _ (add_storage_changes-FitsAfter n.storage_changes ids b₁ b₂ changes);
      logs = FitsAfter-le _ _ (add_logs-FitsAfter n.logs ids [] b₂ (log_ids, b₃) logs);
      transfers =
          FitsAfter-le _ _ (add_token_transfers-FitsAfter n.token_transfers log_ids b₃ b transfers);
    }
