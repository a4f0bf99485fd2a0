-- ===== src/Ingestion/Normalize/Kept.antt =====
-- A call's storage changes and logs keep what the accumulator holds valid.
use rootcause.Prelude.{
  ℕ, ◌≤◌, ◌<◌, ◌≡◌, refl, ◌∙◌, inl, inr, true, false, Option, none, some, List, [], ◌∷◌, ◌++◌, ok,
  >>=-eq-ok, ok-injective, contains, nat_Eq, list_Eq, ◌==◌, ltb, ltb→lt, All, All-map, All-append,
  length, length-append, Bool-cases, arith,
}
use rootcause.Facts.Types.{Address, Wei}
use rootcause.Facts.Arena.{u32_mod}
use rootcause.Ingestion.Error.{CallPath}
use rootcause.Ingestion.Raw.{RawStorageChange, RawLog}
use rootcause.Ingestion.HexUtil.{parse_hex_u64, parse_address, parse_word, parse_hex_bytes}
use rootcause.Ingestion.Normalize.{
  NormalizedStorageChange, NormalizedLog, Accumulator, process_storage_change,
  process_storage_changes, process_log, process_logs, decoded_transfer, log_index_from, collect,
  try_decode_token_transfer,
}
use rootcause.Ingestion.Normalize.Placed.{
  ContextOf, FactsAreValid, ChangeIsValid, LogIsValid, TransferIsValid, LogsAreDistinct-snoc,
}

-- The facts are still valid, and the calls are the same.
abbrev pub Keeps : Accumulator → Accumulator → Type 0
Keeps acc next = FactsAreValid next × (next.calls ≡ acc.calls)

process_storage_change-Keeps :
    (i : ℕ) (context : Address) (path : CallPath) (change : RawStorageChange)
    (acc next : Accumulator)
    → ContextOf acc.calls i context
    → FactsAreValid acc
    → process_storage_change i context path change acc ≡ ok next
    → Keeps acc next
unfolding process_storage_change
process_storage_change-Keeps i context path change acc next owner valid h =
    let (contract, _, h₁) =
      >>=-eq-ok (parse_address "storageChange.contract" change.contract) _ h in
    elim (Bool-cases (contract == context)) [
      | inr foreign ↦ absurd (let stuck = rw foreign at h₁ in cc)
      | inl owned ↦
          let h₂ = rw owned at h₁ in
          let (slot, _, h₃) = >>=-eq-ok (parse_word "storageChange.slot" change.slot) _ h₂ in
          let (before, _, h₄) = >>=-eq-ok (parse_word "storageChange.before" change.before) _ h₃ in
          let (after, _, h₅) = >>=-eq-ok (parse_word "storageChange.after" change.after) _ h₄ in
          let made : NormalizedStorageChange = record {
            call_index = i;
            contract = contract;
            slot = slot;
            before = before;
            after = after;
          } in
          let same = ok-injective h₅ in
          let whose : contract ≡ context = (list_Eq.eqb_iff contract context).0 owned in
          rw (← same) (
            record {
              calls = valid.calls;
              changes =
                  All-append (ChangeIsValid acc.calls) acc.storage_changes (made ∷ []) valid.changes
                    (rw whose owner, tt);
              logs = valid.logs;
              transfers = valid.transfers;
              seen = valid.seen;
              distinct = valid.distinct;
            },
            refl,
          )
    ]

pub process_storage_changes-Keeps :
    (i : ℕ) (context : Address) (path : CallPath) (changes : List RawStorageChange)
    (acc next : Accumulator)
    → ContextOf acc.calls i context
    → FactsAreValid acc
    → process_storage_changes i context path changes acc ≡ ok next
    → Keeps acc next
unfolding process_storage_changes
process_storage_changes-Keeps i context path [] acc next owner valid h =
    let same : acc ≡ next = cc in rw (← same) (valid, refl)
process_storage_changes-Keeps i context path (change ∷ changes) acc next owner valid h =
    let (mid, first, rest) =
      >>=-eq-ok (process_storage_change i context path change acc)
        (process_storage_changes i context path changes) h in
    let (valid₁, same₁) =
      process_storage_change-Keeps i context path change acc mid owner valid first in
    let (valid₂, same₂) =
      process_storage_changes-Keeps i context path changes mid next (rw same₁ owner) valid₁ rest in
    (valid₂, same₂ ∙ same₁)

-- The one transfer that a log adds cites that log.
decoded_transfer-TransferIsValid :
    (logs : List NormalizedLog) (l : NormalizedLog)
    (decoded : Option (Address × Address × Address × Wei))
    → All (TransferIsValid (logs ++ l ∷ [])) (decoded_transfer (length logs) decoded)
decoded_transfer-TransferIsValid logs l none = tt
decoded_transfer-TransferIsValid logs l (some (token, from, to, amount)) =
    (omega (arith, length-append logs (l ∷ [])), tt)

log_index_from-ok : (raw n : ℕ) → log_index_from raw ≡ ok n → (n ≡ raw) × (n < u32_mod)
log_index_from-ok raw n h = elim (Bool-cases (ltb raw u32_mod)) [
  | inr large ↦ absurd (let stuck = rw large at h in cc)
  | inl small ↦
      let done = rw small at h in
      let same : raw ≡ n = cc in rw (← same) (refl, ltb→lt raw u32_mod small)
]

contains-head : (x y : ℕ) (xs : List ℕ) → y ≡ x → contains (x ∷ xs) y ≡ true
contains-head x y xs e = ground arith

contains-tail : (x y : ℕ) (xs : List ℕ) → contains xs y ≡ true → contains (x ∷ xs) y ≡ true
contains-tail x y xs h = ground arith

four_or_fewer : (n : ℕ) → ltb 4 n ≡ false → n ≤ 4
four_or_fewer n h = ground arith

-- One log more, of an index not seen before.
FactsAreValid-log :
    (acc : Accumulator) (l : NormalizedLog) (raw : ℕ)
    (decoded : Option (Address × Address × Address × Wei))
    → FactsAreValid acc
    → LogIsValid acc.calls l
    → l.log_index ≡ raw
    → contains acc.seen_log_indices raw ≡ false
    → FactsAreValid (record acc {
      seen_log_indices = raw ∷ acc.seen_log_indices;
      token_transfers = acc.token_transfers ++ decoded_transfer (length acc.logs) decoded;
      logs = acc.logs ++ l ∷ [];
    })
FactsAreValid-log acc l raw decoded valid well index fresh =
    let longer = length-append acc.logs (l ∷ []) in
    record {
      calls = valid.calls;
      changes = valid.changes;
      logs = All-append (LogIsValid acc.calls) acc.logs (l ∷ []) valid.logs (well, tt);
      transfers =
          All-append (TransferIsValid (acc.logs ++ l ∷ [])) acc.token_transfers
            (decoded_transfer (length acc.logs) decoded)
            (All-map (TransferIsValid acc.logs) (TransferIsValid (acc.logs ++ l ∷ []))
              acc.token_transfers (λ t h. omega arith) valid.transfers)
            (decoded_transfer-TransferIsValid acc.logs l decoded);
      seen =
          All-append
            (λ (x : NormalizedLog). contains (raw ∷ acc.seen_log_indices) x.log_index ≡ true)
            acc.logs (l ∷ [])
            (All-map (λ (x : NormalizedLog). contains acc.seen_log_indices x.log_index ≡ true) _
              acc.logs (λ x h. contains-tail raw x.log_index acc.seen_log_indices h) valid.seen)
            (contains-head raw l.log_index acc.seen_log_indices index, tt);
      distinct =
          LogsAreDistinct-snoc acc.logs l acc.seen_log_indices valid.distinct valid.seen
            (rw index fresh);
    }

process_log-Keeps :
    (i : ℕ) (path : CallPath) (log : RawLog) (acc next : Accumulator)
    → i < length acc.calls
    → FactsAreValid acc
    → process_log i path log acc ≡ ok next
    → Keeps acc next
unfolding process_log
process_log-Keeps i path log acc next here valid h =
    let (raw, _, h₁) = >>=-eq-ok (parse_hex_u64 "log.logIndex" log.log_index) _ h in
    elim (Bool-cases (contains acc.seen_log_indices raw)) [
      | inl again ↦ absurd (let stuck = rw again at h₁ in cc)
      | inr fresh ↦
          let (address, _, h₂) =
            >>=-eq-ok (parse_address "log.address" log.address) _ (rw fresh at h₁) in
          let (topics, _, h₃) = >>=-eq-ok (collect (parse_word "log.topics[]") log.topics) _ h₂ in
          elim (Bool-cases (ltb 4 (length topics))) [
            | inl many ↦ absurd (let stuck = rw many at h₃ in cc)
            | inr few ↦
                let (bytes, _, h₄) =
                  >>=-eq-ok (parse_hex_bytes "log.data" log.bytes) _ (rw few at h₃) in
                let (index, checked, h₅) = >>=-eq-ok (log_index_from raw) _ h₄ in
                let (as_read, small) = log_index_from-ok raw index checked in
                let made : NormalizedLog = record {
                  call_index = i;
                  address = address;
                  topics = topics;
                  bytes = bytes;
                  log_index = index;
                } in
                let decoded = try_decode_token_transfer address topics bytes in
                let same = ok-injective h₅ in
                rw (← same) (
                  FactsAreValid-log acc made raw decoded valid
                      (here, four_or_fewer (length topics) few, small) as_read fresh,
                  refl,
                )
          ]
    ]

pub process_logs-Keeps :
    (i : ℕ) (path : CallPath) (logs : List RawLog) (acc next : Accumulator)
    → i < length acc.calls
    → FactsAreValid acc
    → process_logs i path logs acc ≡ ok next
    → Keeps acc next
unfolding process_logs
process_logs-Keeps i path [] acc next here valid h =
    let same : acc ≡ next = cc in rw (← same) (valid, refl)
process_logs-Keeps i path (log ∷ logs) acc next here valid h =
    let (mid, first, rest) = >>=-eq-ok (process_log i path log acc) (process_logs i path logs) h in
    let (valid₁, same₁) = process_log-Keeps i path log acc mid here valid first in
    let (valid₂, same₂) = process_logs-Keeps i path logs mid next (rw same₁ here) valid₁ rest in
    (valid₂, same₂ ∙ same₁)
