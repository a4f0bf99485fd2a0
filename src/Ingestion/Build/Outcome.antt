-- ===== src/Ingestion/Build/Outcome.antt =====
-- What `build` does with the facts that `normalize` returns.
use rootcause.Prelude.{
  ℕ, suc, ◌+◌, ◌%◌, ◌≤◌, ◌<◌, ◌≡◌, refl, sym, ap, ◌∙◌, inl, inr, some, List, [], ◌∷◌, map, ok, err,
  length, get_elem?, lt-length_of_get_elem?, any, All, All-map, Bool-cases, arith, if◌then◌else◌,
}
use rootcause.Facts.Types.{Call, StorageChange, LogEvent, TokenTransfer}
use rootcause.Facts.Arena.{FactArena, FactArenaBuilder, new_builder, u16_mod, u32_mod}
use rootcause.Facts.Arena
use rootcause.Facts.Arena.Valid.{
  WellFormed, OneRoot, IsChild, ParentIsValid, frozen, WellFormed-build,
}
use rootcause.Facts.Trace.{TraceSource}
use rootcause.Ingestion.Error.{trace_construction}
use rootcause.Ingestion.Normalize.{NormalizedCall, NormalizedStorageChange, NormalizedLog}
use rootcause.Ingestion.Normalize.Walk.{NormalizedTrace}
use rootcause.Ingestion.Normalize.Placed.{
  ContextOf, own, inherited, Placed, CallsAreValid, ChangeIsValid, LogIsValid,
}
use rootcause.Ingestion.Normalize.Valid.{IsValid}
use rootcause.Ingestion.Build.{arena_constructed, select, build}
use rootcause.Ingestion.Build.Made.{call_of, made_of, trace_of-ok, select-id}
use rootcause.Ingestion.Build.Content.{
  moves_static_value, calls_as, change_as, logs_as, transfer_as, arena_of, ids_from,
}
use rootcause.Ingestion.Build.Loops.{
  ParentsBelow, add_calls_lem, add_storage_changes_lem, add_logs_lem, add_token_transfers_lem,
  ids_from-ArePositions, length-ids_from, calls_as-get_elem?, get_elem?-calls_as, select-parent,
  select-depth, length-calls_as, length-logs_as,
}

-- The facts of each kind have their positions in a u32.
pub record IsSmall (n : NormalizedTrace) : Type 0 where
  pub calls : length n.calls ≤ u32_mod
  pub changes : length n.storage_changes ≤ u32_mod
  pub logs : length n.logs ≤ u32_mod
  pub transfers : length n.token_transfers ≤ u32_mod

ContextOf-lt :
    {calls : List NormalizedCall} {i : ℕ} {a : List ℕ} → ContextOf calls i a → i < length calls
ContextOf-lt {calls} {i} (own c here kind target) = lt-length_of_get_elem? calls i c here
ContextOf-lt {calls} {i} (inherited c p here kind parent above) =
    lt-length_of_get_elem? calls i c here

Placed-lt :
    (calls : List NormalizedCall) (i : ℕ) (c : NormalizedCall) (p : ℕ)
    → Placed calls i c
    → c.parent_index ≡ some p
    → p < i
Placed-lt calls i c p (inl (top, _, _)) e = absurd (cc)
Placed-lt calls i c p (inr (q, d, parent, earlier, _, _)) e =
    let same : p ≡ q = cc in rw same earlier

-- From each position to the whole.
ParentsBelow-tail :
    (k : ℕ) (ncs : List NormalizedCall)
    → ((i : ℕ) (c : NormalizedCall) (p : ℕ)
        → get_elem? ncs i ≡ some c
        → c.parent_index ≡ some p
        → p < k + i)
    → ParentsBelow k ncs
ParentsBelow-tail k [] h = tt
ParentsBelow-tail k (c ∷ ncs) h = (
  λ p e. omega (arith, h 0 c p refl e),
  ParentsBelow-tail (suc k) ncs (λ i d p found e. omega (arith, h (suc i) d p found e)),
)

All-of-positions :
    {A : Type 0} (P : A → Type 0) (xs : List A)
    → ((i : ℕ) (a : A) → get_elem? xs i ≡ some a → P a)
    → All P xs
All-of-positions P [] h = tt
All-of-positions P (x ∷ xs) h = (h 0 x refl, All-of-positions P xs (λ i a found. h (suc i) a found))

-- A call of the arena and its parent there.
calls_as-ParentIsValid :
    (ncs : List NormalizedCall) (i : ℕ) (c : Call)
    → CallsAreValid ncs
    → get_elem? (calls_as 0 ncs) i ≡ some c
    → ParentIsValid (calls_as 0 ncs) c
calls_as-ParentIsValid ncs i c valid found p e =
    let (nc, there, made) = get_elem?-calls_as 0 ncs i c found in
    let plain = call_of (0 + i) nc.parent_index nc in
    let id : c.id ≡ i = ap (λ (x : Call). x.id) made ∙ select-id nc.selector plain ∙ omega arith in
    let parent : c.parent ≡ nc.parent_index =
      ap (λ (x : Call). x.parent) made ∙ select-parent nc.selector plain in
    let depth : c.depth ≡ nc.depth =
      ap (λ (x : Call). x.depth) made ∙ select-depth nc.selector plain in
    elim (valid i nc there).0 [
      | inl (top, _, _) ↦ absurd (cc)
      | inr (q, d, above, earlier, found_q, level) ↦
          let same : q ≡ p = cc in
          let parent_call = select d.selector (call_of (0 + q) d.parent_index d) in
          let at_q = calls_as-get_elem? 0 ncs q d found_q in
          let its_depth : parent_call.depth ≡ d.depth =
            select-depth d.selector (call_of (0 + q) d.parent_index d) in
          rw (← same) (
            parent_call,
            at_q,
            rw id earlier,
            depth ∙ level ∙ ap (λ (x : ℕ). (x + 1) % u16_mod) (sym its_depth),
          )
    ]

-- Only the first call has no parent.
calls_as-IsChild :
    (ncs : List NormalizedCall) (i : ℕ) (c : Call)
    → CallsAreValid ncs
    → get_elem? (calls_as 0 ncs) (suc i) ≡ some c
    → IsChild c
calls_as-IsChild ncs i c valid found =
    let (nc, there, made) = get_elem?-calls_as 0 ncs (suc i) c found in
    let plain = call_of (0 + suc i) nc.parent_index nc in
    let parent : c.parent ≡ nc.parent_index =
      ap (λ (x : Call). x.parent) made ∙ select-parent nc.selector plain in
    elim (valid (suc i) nc there).0 [
      | inl (_, first, _) ↦ absurd (omega arith)
      | inr (q, d, above, _, _, _) ↦ (q, parent ∙ above)
    ]

calls_as-OneRoot :
    (ncs : List NormalizedCall) → 0 < length ncs → CallsAreValid ncs → OneRoot (calls_as 0 ncs)
calls_as-OneRoot [] some_call valid = absurd (omega arith)
calls_as-OneRoot (nc ∷ ncs) some_call valid =
    let plain = call_of 0 nc.parent_index nc in
    (
      elim (valid 0 nc refl).0 [
        | inl (top, _, _) ↦ select-parent nc.selector plain ∙ top
        | inr (p, d, above, earlier, _, _) ↦ absurd (omega arith)
      ],
      All-of-positions IsChild (calls_as 1 ncs)
          (λ i c found. calls_as-IsChild (nc ∷ ncs) i c valid found),
    )

All-map-list :
    {A B : Type 0} (P : B → Type 0) (f : A → B) (xs : List A)
    → All (λ (x : A). P (f x)) xs
    → All P (map f xs)
All-map-list P f [] h = tt
All-map-list P f (x ∷ xs) h = (h.0, All-map-list P f xs h.1)

logs_as-All :
    (n k : ℕ) (logs : List NormalizedLog)
    → All (λ (l : NormalizedLog). l.call_index < n) logs
    → All (λ (l : LogEvent). l.call_id < n) (logs_as k logs)
logs_as-All n k [] h = tt
logs_as-All n k (l ∷ logs) h = (h.0, logs_as-All n (suc k) logs h.1)

changes-lt :
    (n : NormalizedTrace)
    → IsValid n
    → All (λ (s : NormalizedStorageChange). s.call_index < length n.calls) n.storage_changes
changes-lt n v =
    All-map (ChangeIsValid n.calls) (λ (s : NormalizedStorageChange). s.call_index < length n.calls)
      n.storage_changes (λ s h. ContextOf-lt h) v.changes

arena_of-WellFormed : (n : NormalizedTrace) → IsValid n → WellFormed (arena_of n)
arena_of-WellFormed n v =
    let calls = length-calls_as 0 n.calls in
    let logs = length-logs_as 0 n.logs in
    record {
      one_root = calls_as-OneRoot n.calls v.some_call v.calls;
      parents =
          All-of-positions (ParentIsValid (calls_as 0 n.calls)) (calls_as 0 n.calls)
            (λ i c found. calls_as-ParentIsValid n.calls i c v.calls found);
      changes_resolve = rw calls (
          All-map-list (λ (s : StorageChange). s.call_id < length n.calls) change_as
            n.storage_changes (changes-lt n v));
      logs_resolve = rw calls (
          logs_as-All (length n.calls) 0 n.logs (
            All-map (LogIsValid n.calls) (λ (l : NormalizedLog). l.call_index < length n.calls)
              n.logs (λ l h. h.0) v.logs));
      transfers_resolve = rw logs (
          All-map-list (λ (t : TokenTransfer). t.log_id < length n.logs) transfer_as
            n.token_transfers v.transfers);
    }

arena-build :
    (n : NormalizedTrace) (b : FactArenaBuilder)
    → IsValid n
    → frozen b ≡ arena_of n
    → arena_constructed (Arena.build b) ≡ ok (arena_of n)
arena-build n b v same =
    let done = WellFormed-build b (rw same (arena_of-WellFormed n v)) in rw (done, same) refl

-- On what `normalize` returns, with at most 2^32 facts of each kind, `build` does one of two things: it
-- returns the trace whose arena holds every fact at its position, its position for an id; or, where a
-- static call has a value, it fails with the error of `Call::new`. It does not panic, and no other
-- error is met.
pub build_outcome :
    (n : NormalizedTrace) (source : TraceSource)
    → IsValid n
    → IsSmall n
    → build n source ≡ (
        if any moves_static_value n.calls
        then err (trace_construction "a StaticCall cannot carry a nonzero value transfer")
        else ok (made_of n source (arena_of n)))
unfolding build new_builder
build_outcome n source v small =
    let calls =
      add_calls_lem n.calls [] new_builder (λ i h. absurd (omega arith)) refl
        (ParentsBelow-tail 0 n.calls
          (λ i c p found e. omega (arith, Placed-lt n.calls i c p (v.calls i c found).0 e)))
        (omega (arith, small.calls)) in
    elim (Bool-cases (any moves_static_value n.calls)) [
      | inl refused ↦ rw (calls, refused) refl
      | inr accepted ↦
          let ids = ids_from 0 n.calls in
          let positions = ids_from-ArePositions n.calls in
          let count = length-ids_from 0 n.calls in
          let b₁ : FactArenaBuilder = record new_builder { calls = calls_as 0 n.calls } in
          let changes =
            add_storage_changes_lem n.storage_changes ids b₁ positions (rw count (changes-lt n v))
              (omega (arith, small.changes)) in
          let b₂ : FactArenaBuilder = record b₁ {
            storage_changes = map change_as n.storage_changes;
          } in
          let logs =
            add_logs_lem n.logs ids [] b₂ positions
              (rw count (
                All-map (LogIsValid n.calls)
                  (λ (l : NormalizedLog). (l.call_index < length n.calls) × (length l.topics ≤ 4))
                  n.logs (λ l (here, few, _). (here, few)) v.logs))
              refl (omega (arith, small.logs)) in
          let b₃ : FactArenaBuilder = record b₂ { logs = logs_as 0 n.logs } in
          let log_count = length-ids_from 0 n.logs in
          let transfers =
            add_token_transfers_lem n.token_transfers (ids_from 0 n.logs) b₃
              (ids_from-ArePositions n.logs) (rw log_count v.transfers)
              (omega (arith, small.transfers)) in
          let b : FactArenaBuilder = record b₃ {
            token_transfers = map transfer_as n.token_transfers;
          } in
          let built = arena-build n b v refl in
          let done = trace_of-ok n source (arena_of n) in
          rw (build, calls, accepted, changes, logs, transfers, built, done)
    ]
