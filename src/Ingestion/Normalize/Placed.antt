-- ===== src/Ingestion/Normalize/Placed.antt =====
-- What the accumulator of the walk holds: calls in order, and facts that belong to them.
use rootcause.Prelude.{
  ℕ, ◌+◌, ◌%◌, ◌≤◌, ◌<◌, ◌≡◌, sym, ap, ◌∙◌, ◌⊎◌, inl, inr, true, false, none, some, List, [], ◌∷◌,
  ◌++◌, contains, nat_Eq, All, All-map, All-get_elem?, length, length-append, get_elem?,
  get_elem?-append_left, get_elem?-snoc, arith,
}
use rootcause.Facts.Types.{Address, executes_in_caller_context}
use rootcause.Facts.Arena.{u16_mod, u32_mod}
use rootcause.Ingestion.Normalize.{
  NormalizedCall, NormalizedStorageChange, NormalizedLog, NormalizedTokenTransfer, Accumulator,
  max_call_depth,
}
use rootcause.Ingestion.Normalize.Walk.{to_or_from}

-- Whose storage the call at `i` writes: its own target's (or its sender's, where there is none), and
-- for a call in its caller's context whatever its parent writes.
pub data ContextOf (calls : List NormalizedCall) : ℕ → Address → Type 0 where
  own :
      {i : ℕ} {a : Address} (c : NormalizedCall)
      → get_elem? calls i ≡ some c
      → executes_in_caller_context c.kind ≡ false
      → to_or_from c.to c.from ≡ a
      → ContextOf calls i a
  inherited :
      {i : ℕ} {a : Address} (c : NormalizedCall) (p : ℕ)
      → get_elem? calls i ≡ some c
      → executes_in_caller_context c.kind ≡ true
      → c.parent_index ≡ some p
      → ContextOf calls p a
      → ContextOf calls i a

-- The root, or a call one level below a parent that comes earlier.
abbrev pub Placed : List NormalizedCall → ℕ → NormalizedCall → Type 0
Placed calls i c =
    ((c.parent_index ≡ none) × (i ≡ 0) × (c.depth ≡ 0))
    ⊎ ((p : ℕ) × (d : NormalizedCall) × (c.parent_index ≡ some p)
        × (p < i)
        × (get_elem? calls p ≡ some d)
        × (c.depth ≡ (d.depth + 1) % u16_mod))

abbrev pub CallsAreValid : List NormalizedCall → Type 0
CallsAreValid calls =
    (i : ℕ) (c : NormalizedCall)
    → get_elem? calls i ≡ some c
    → Placed calls i c × (c.depth ≤ max_call_depth)

abbrev pub ChangeIsValid : List NormalizedCall → NormalizedStorageChange → Type 0
ChangeIsValid calls s = ContextOf calls s.call_index s.contract

abbrev pub LogIsValid : List NormalizedCall → NormalizedLog → Type 0
LogIsValid calls l = (l.call_index < length calls) × (length l.topics ≤ 4) × (l.log_index < u32_mod)

abbrev pub TransferIsValid : List NormalizedLog → NormalizedTokenTransfer → Type 0
TransferIsValid logs t = t.log_index_in_vec < length logs

abbrev pub LogsAreDistinct : List NormalizedLog → Type 0
LogsAreDistinct logs =
    (i j : ℕ) (l m : NormalizedLog)
    → get_elem? logs i ≡ some l
    → get_elem? logs j ≡ some m
    → l.log_index ≡ m.log_index
    → i ≡ j

pub record FactsAreValid (acc : Accumulator) : Type 0 where
  pub calls : CallsAreValid acc.calls
  pub changes : All (ChangeIsValid acc.calls) acc.storage_changes
  pub logs : All (LogIsValid acc.calls) acc.logs
  pub transfers : All (TransferIsValid acc.logs) acc.token_transfers
  pub seen : All (λ (l : NormalizedLog). contains acc.seen_log_indices l.log_index ≡ true) acc.logs
  pub distinct : LogsAreDistinct acc.logs

pub ContextOf-append :
    {calls : List NormalizedCall} {i : ℕ} {a : Address} (more : List NormalizedCall)
    → ContextOf calls i a
    → ContextOf (calls ++ more) i a
ContextOf-append {calls} more (own c here kind target) =
    own c (get_elem?-append_left calls more _ c here) kind target
ContextOf-append {calls} more (inherited c p here kind parent above) =
    inherited c p (get_elem?-append_left calls more _ c here) kind parent
      (ContextOf-append more above)

Placed-append :
    (calls more : List NormalizedCall) (i : ℕ) (c : NormalizedCall)
    → Placed calls i c
    → Placed (calls ++ more) i c
Placed-append calls more i c (inl root) = inl root
Placed-append calls more i c (inr (p, d, parent, earlier, found, level)) =
    inr (p, d, parent, earlier, get_elem?-append_left calls more p d found, level)

pub CallsAreValid-snoc :
    (calls : List NormalizedCall) (c : NormalizedCall)
    → CallsAreValid calls
    → Placed (calls ++ c ∷ []) (length calls) c
    → c.depth ≤ max_call_depth
    → CallsAreValid (calls ++ c ∷ [])
CallsAreValid-snoc calls c valid placed shallow i x h = elim (get_elem?-snoc calls c i x h) [
  | inl old ↦ (Placed-append calls (c ∷ []) i x (valid i x old).0, (valid i x old).1)
  | inr (last, same) ↦ rw (last, ← same) (placed, shallow)
]

pub LogsAreDistinct-snoc :
    (logs : List NormalizedLog) (l : NormalizedLog) (seen : List ℕ)
    → LogsAreDistinct logs
    → All (λ (x : NormalizedLog). contains seen x.log_index ≡ true) logs
    → contains seen l.log_index ≡ false
    → LogsAreDistinct (logs ++ l ∷ [])
LogsAreDistinct-snoc logs l seen distinct known fresh i j x y hx hy e =
    elim (get_elem?-snoc logs l i x hx) [
      | inl old_x ↦ elim (get_elem?-snoc logs l j y hy) [
        | inl old_y ↦ distinct i j x y old_x old_y e
        | inr (last, same) ↦ absurd (
            let there =
              All-get_elem? (λ (z : NormalizedLog). contains seen z.log_index ≡ true) logs i x known
                old_x in
            let index : x.log_index ≡ l.log_index =
              e ∙ ap (λ (z : NormalizedLog). z.log_index) (sym same) in
            let met = rw index at there in cc)
      ]
      | inr (last_i, same_x) ↦ elim (get_elem?-snoc logs l j y hy) [
        | inl old_y ↦ absurd (
            let there =
              All-get_elem? (λ (z : NormalizedLog). contains seen z.log_index ≡ true) logs j y known
                old_y in
            let index : y.log_index ≡ l.log_index =
              sym e ∙ ap (λ (z : NormalizedLog). z.log_index) (sym same_x) in
            let met = rw index at there in cc)
        | inr (last_j, same_y) ↦ last_i ∙ sym last_j
      ]
    ]

-- A call more keeps what is known of the facts before it.
pub FactsAreValid-call :
    (acc : Accumulator) (c : NormalizedCall)
    → FactsAreValid acc
    → CallsAreValid (acc.calls ++ c ∷ [])
    → FactsAreValid (record acc { calls = acc.calls ++ c ∷ [] })
FactsAreValid-call acc c valid calls =
    let longer = length-append acc.calls (c ∷ []) in
    record {
      calls = calls;
      changes =
          All-map (ChangeIsValid acc.calls) (ChangeIsValid (acc.calls ++ c ∷ []))
            acc.storage_changes (λ s h. ContextOf-append (c ∷ []) h) valid.changes;
      logs =
          All-map (LogIsValid acc.calls) (LogIsValid (acc.calls ++ c ∷ [])) acc.logs
            (λ l (here, few, small). (omega arith, few, small)) valid.logs;
      transfers = valid.transfers;
      seen = valid.seen;
      distinct = valid.distinct;
    }
