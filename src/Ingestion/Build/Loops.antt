-- ===== src/Ingestion/Build/Loops.antt =====
-- The four loops of `build`, on facts whose references resolve.
use rootcause.Prelude.{
  snoc-append, append-nil, length_snoc, ℕ, zero, suc, ◌+◌, ◌≤◌, ◌<◌, ◌≡◌, refl, sym, ap, ◌∙◌, inl,
  inr, true, false, Option, none, some, List, [], ◌∷◌, ◌++◌, map, ok, err, length, length-append,
  get_elem?, get_elem?-append_left, get_elem?-append_length, any, ltb, lt→ltb, nat_Eq, list_Eq, All,
  Bool-cases, arith, if◌then◌else◌,
}
use rootcause.Facts.Types.{Call, new_call, with_selector, new_log}
use rootcause.Facts.Arena.{
  FactArenaBuilder, next_call_id, next_log_id, next_storage_change_id, next_token_transfer_id,
  add_call, add_storage_change, add_log, add_token_transfer, u32_mod,
}
use rootcause.Ingestion.Error.{trace_construction}
use rootcause.Ingestion.Normalize.{
  NormalizedCall, NormalizedStorageChange, NormalizedLog, NormalizedTokenTransfer,
}
use rootcause.Ingestion.Build.{
  parent_of, select, add_calls, add_storage_changes, add_logs, add_token_transfers,
}
use rootcause.Ingestion.Build.Made.{call_of}
use rootcause.Ingestion.Build.Content.{
  moves_static_value, calls_as, change_as, log_as, logs_as, transfer_as, ids_from, ArePositions,
}

ArePositions-snoc : (ids : List ℕ) → ArePositions ids → ArePositions (ids ++ length ids ∷ [])
ArePositions-snoc ids h i below = elim (Bool-cases (ltb i (length ids))) [
  | inl old ↦ get_elem?-append_left ids (length ids ∷ []) i i (h i (ground arith))
  | inr new ↦
      let last : i ≡ length ids = ground (arith, length-append ids (length ids ∷ [])) in
      rw last (get_elem?-append_length ids [] (length ids))
]

abbrev pub ParentsBelow : ℕ → List NormalizedCall → Type 0
ParentsBelow k [] = Unit
ParentsBelow k (nc ∷ ncs) = ((p : ℕ) → nc.parent_index ≡ some p → p < k) × ParentsBelow (suc k) ncs

parent_of-ok :
    (ids : List ℕ) (parent : Option ℕ)
    → ArePositions ids
    → ((p : ℕ) → parent ≡ some p → p < length ids)
    → parent_of ids parent ≡ ok parent
parent_of-ok ids none at below = refl
parent_of-ok ids (some p) at below = rw (at p (below p refl)) refl

room_for : (n more : ℕ) → n + suc more ≤ u32_mod → ltb n u32_mod ≡ true
room_for n more h = lt→ltb n u32_mod (omega arith)

pub add_calls_lem :
    (ncs : List NormalizedCall) (ids : List ℕ) (b : FactArenaBuilder)
    → ArePositions ids
    → length ids ≡ length b.calls
    → ParentsBelow (length ids) ncs
    → length ids + length ncs ≤ u32_mod
    → add_calls ncs ids b ≡ (
        if any moves_static_value ncs
        then err (trace_construction "a StaticCall cannot carry a nonzero value transfer")
        else ok (
          ids ++ ids_from (length ids) ncs,
          record b { calls = b.calls ++ calls_as (length ids) ncs },
        ))
unfolding add_calls next_call_id new_call add_call
add_calls_lem [] ids b at same below room = rw (append-nil ids, append-nil b.calls) refl
add_calls_lem (nc ∷ ncs) ids b at same (first, below) room =
    let id = length ids in
    let room_here = room_for (length ids) (length ncs) room in
    let fresh : next_call_id b ≡ some id = rw (next_call_id, ← same, room_here) in
    let parent = parent_of-ok ids nc.parent_index at first in
    elim (Bool-cases (moves_static_value nc)) [
      | inl refused ↦ rw (fresh, parent, new_call, refused, add_calls)
      | inr accepted ↦
          let c = select nc.selector (call_of id nc.parent_index nc) in
          let longer : length (ids ++ id ∷ []) ≡ suc id = length_snoc ids id in
          let grown : length (b.calls ++ c ∷ []) ≡ suc (length b.calls) = length_snoc b.calls c in
          let rest =
            add_calls_lem ncs (ids ++ id ∷ []) (add_call b c).1 (ArePositions-snoc ids at)
              (longer ∙ ap suc same ∙ sym grown) (rw longer below) (rw longer (omega arith)) in
          let moved = rw (longer, snoc-append ids id _, snoc-append b.calls c _) at rest in
          rw (fresh, parent, new_call, accepted, add_calls) moved
    ]

pub add_storage_changes_lem :
    (scs : List NormalizedStorageChange) (ids : List ℕ) (b : FactArenaBuilder)
    → ArePositions ids
    → All (λ (sc : NormalizedStorageChange). sc.call_index < length ids) scs
    → length b.storage_changes + length scs ≤ u32_mod
    → add_storage_changes ids scs b
      ≡ ok (record b { storage_changes = b.storage_changes ++ map change_as scs })
unfolding add_storage_changes add_storage_change next_storage_change_id
add_storage_changes_lem [] ids b at here room = rw (append-nil b.storage_changes) refl
add_storage_changes_lem (sc ∷ scs) ids b at (first, here) room =
    let free = room_for (length b.storage_changes) (length scs) room in
    let found = at sc.call_index first in
    let longer = length_snoc b.storage_changes (change_as sc) in
    let rest =
      add_storage_changes_lem scs ids
        (record b { storage_changes = b.storage_changes ++ change_as sc ∷ [] }) at here
        (rw longer (omega arith)) in
    let moved = rw (snoc-append b.storage_changes (change_as sc) (map change_as scs)) at rest in
    rw (found, free, add_storage_changes, add_storage_change, next_storage_change_id) moved

four_at_most : (n : ℕ) → n ≤ 4 → ltb 4 n ≡ false
four_at_most n h = ground arith

pub add_logs_lem :
    (logs : List NormalizedLog) (ids log_ids : List ℕ) (b : FactArenaBuilder)
    → ArePositions ids
    → All (λ (l : NormalizedLog). (l.call_index < length ids) × (length l.topics ≤ 4)) logs
    → length log_ids ≡ length b.logs
    → length log_ids + length logs ≤ u32_mod
    → add_logs ids logs log_ids b
      ≡ ok (
        log_ids ++ ids_from (length log_ids) logs,
        record b { logs = b.logs ++ logs_as (length log_ids) logs },
      )
unfolding add_logs next_log_id new_log add_log
add_logs_lem [] ids log_ids b at here same room = rw (append-nil log_ids, append-nil b.logs) refl
add_logs_lem (l ∷ logs) ids log_ids b at ((first, few), here) same room =
    let id = length log_ids in
    let room_here = room_for (length log_ids) (length logs) room in
    let fresh : next_log_id b ≡ some id = rw (next_log_id, ← same, room_here) in
    let found = at l.call_index first in
    let topics = four_at_most (length l.topics) few in
    let longer : length (log_ids ++ id ∷ []) ≡ suc id = length_snoc log_ids id in
    let grown : length (b.logs ++ log_as id l ∷ []) ≡ suc (length b.logs) =
      length_snoc b.logs (log_as id l) in
    let rest =
      add_logs_lem logs ids (log_ids ++ id ∷ []) (add_log b (log_as id l)).1 at here
        (longer ∙ ap suc same ∙ sym grown) (rw longer (omega arith)) in
    let moved = rw (longer, snoc-append log_ids id _, snoc-append b.logs (log_as id l) _) at rest in
    rw (found, fresh, topics, new_log, add_logs) moved

pub add_token_transfers_lem :
    (ts : List NormalizedTokenTransfer) (log_ids : List ℕ) (b : FactArenaBuilder)
    → ArePositions log_ids
    → All (λ (t : NormalizedTokenTransfer). t.log_index_in_vec < length log_ids) ts
    → length b.token_transfers + length ts ≤ u32_mod
    → add_token_transfers log_ids ts b
      ≡ ok (record b { token_transfers = b.token_transfers ++ map transfer_as ts })
unfolding add_token_transfers add_token_transfer next_token_transfer_id
add_token_transfers_lem [] log_ids b at here room = rw (append-nil b.token_transfers) refl
add_token_transfers_lem (t ∷ ts) log_ids b at (first, here) room =
    let free = room_for (length b.token_transfers) (length ts) room in
    let found = at t.log_index_in_vec first in
    let longer = length_snoc b.token_transfers (transfer_as t) in
    let rest =
      add_token_transfers_lem ts log_ids
        (record b { token_transfers = b.token_transfers ++ transfer_as t ∷ [] }) at here
        (rw longer (omega arith)) in
    let moved = rw (snoc-append b.token_transfers (transfer_as t) (map transfer_as ts)) at rest in
    rw (found, free, add_token_transfers, add_token_transfer, next_token_transfer_id) moved

ids_from-get_elem? {ℓ} :
    {A : Type ℓ} (k : ℕ) (xs : List A) (i : ℕ)
    → i < length xs
    → get_elem? (ids_from k xs) i ≡ some (k + i)
ids_from-get_elem? k [] i h = absurd (omega arith)
ids_from-get_elem? k (x ∷ xs) zero h = ap some (omega arith)
ids_from-get_elem? k (x ∷ xs) (suc i) h =
    ids_from-get_elem? (suc k) xs i (omega arith) ∙ ap some (omega arith)

pub length-ids_from {ℓ} : {A : Type ℓ} (k : ℕ) (xs : List A) → length (ids_from k xs) ≡ length xs
length-ids_from k [] = refl
length-ids_from k (x ∷ xs) = ap suc (length-ids_from (suc k) xs)

pub ids_from-ArePositions {ℓ} : {A : Type ℓ} (xs : List A) → ArePositions (ids_from 0 xs)
ids_from-ArePositions xs i h =
    ids_from-get_elem? 0 xs i (rw (length-ids_from 0 xs) at h) ∙ ap some (omega arith)

-- The arena's calls stand for the normalized ones, position by position.
pub calls_as-get_elem? :
    (k : ℕ) (ncs : List NormalizedCall) (i : ℕ) (nc : NormalizedCall)
    → get_elem? ncs i ≡ some nc
    → get_elem? (calls_as k ncs) i ≡ some (select nc.selector (call_of (k + i) nc.parent_index nc))
calls_as-get_elem? k [] i nc h = absurd (cc)
calls_as-get_elem? k (x ∷ ncs) zero nc h =
    let same : x ≡ nc = cc in let first : k ≡ k + 0 = omega arith in rw (same, ← first) refl
calls_as-get_elem? k (x ∷ ncs) (suc i) nc h =
    let moved : suc k + i ≡ k + suc i = omega arith in
    rw (← moved) (calls_as-get_elem? (suc k) ncs i nc h)

pub get_elem?-calls_as :
    (k : ℕ) (ncs : List NormalizedCall) (i : ℕ) (c : Call)
    → get_elem? (calls_as k ncs) i ≡ some c
    → (nc : NormalizedCall) × (get_elem? ncs i ≡ some nc)
      × (c ≡ select nc.selector (call_of (k + i) nc.parent_index nc))
get_elem?-calls_as k [] i c h = absurd (cc)
get_elem?-calls_as k (x ∷ ncs) zero c h =
    let first : k ≡ k + 0 = omega arith in (x, refl, rw (← first) (cc))
get_elem?-calls_as k (x ∷ ncs) (suc i) c h =
    let (nc, found, made) = get_elem?-calls_as (suc k) ncs i c h in
    let moved : suc k + i ≡ k + suc i = omega arith in (nc, found, rw (← moved) made)

pub select-parent : (s : Option (List ℕ)) (c : Call) → (select s c).parent ≡ c.parent
unfolding with_selector select
select-parent none c = refl
select-parent (some s) c = refl

pub select-depth : (s : Option (List ℕ)) (c : Call) → (select s c).depth ≡ c.depth
unfolding with_selector select
select-depth none c = refl
select-depth (some s) c = refl

pub length-calls_as : (k : ℕ) (ncs : List NormalizedCall) → length (calls_as k ncs) ≡ length ncs
length-calls_as k [] = refl
length-calls_as k (nc ∷ ncs) = ap suc (length-calls_as (suc k) ncs)

pub length-logs_as : (k : ℕ) (logs : List NormalizedLog) → length (logs_as k logs) ≡ length logs
length-logs_as k [] = refl
length-logs_as k (l ∷ logs) = ap suc (length-logs_as (suc k) logs)
