-- ===== src/Matcher/Predicate/Sound.antt =====
-- What the bindings of each kind of predicate satisfy.
use rootcause.Prelude.{
  ℕ, suc, ◌+◌, ◌≤◌, ◌≡◌, refl, ◌∙◌, sym, ap, inl, inr, none, some, List, [], ◌∷◌, string_Eq, filter,
  length, get_elem?, Member, Member-filter, Member-get_elem?, Member-map, lt-length_of_get_elem?,
  Bool-cases, Option-cases, arith,
}
use rootcause.Facts.Types.{
  Call, StorageChange, LogEvent, TokenTransfer, ValueFlow, flow_of_call, call_ref,
}
use rootcause.Facts.Arena.{
  u32_mod, call, storage_change, log, token_transfer, with_ids, storage_changes_with_ids,
  token_transfers_with_ids, flows_of, value_flows,
}
use rootcause.Facts.Arena.Ids.{IdsFrom-get_elem?, LogIdsFrom-get_elem?, IsIndexed}
use rootcause.Facts.Trace.{Trace}
use rootcause.Dsl.Ir.{CompiledPredicate}
use rootcause.Matcher.Binding.{Binding}
use rootcause.Matcher.Identity.{Resolves, order_key, call_index}
use rootcause.Matcher.Index.{TraceIndex}
use rootcause.Matcher.Predicate.{
  call_matches, call_binding, evaluate_call, storage_matches, storage_binding, evaluate_storage,
  flow_matches, flow_binding, evaluate_value_flow, transfer_matches, transfer_binding,
  evaluate_token_transfer, transaction_matches, evaluate_transaction, log_matches, log_binding,
  evaluate_log,
}

-- The binding's fact exists, and its position is the one that the fact's identity gives.
abbrev pub IsPlaced : Trace → Binding → Type 0
IsPlaced t b = Resolves t.arena b.fact × (b.order ≡ order_key t b.fact)

with_ids-get_elem? :
    {A : Type 0} (i : ℕ) (xs : List A) (id : ℕ) (x : A)
    → i + length xs ≤ u32_mod
    → Member (id, x) (with_ids i xs)
    → (k : ℕ) × (id ≡ i + k) × (get_elem? xs k ≡ some x)
with_ids-get_elem? i [] id x few m = absurd m
with_ids-get_elem? i (y ∷ xs) id x few (inl e) =
    (0, ap (λ (q : ℕ × _). q.0) e ∙ ground arith, ap (λ (q : ℕ × _). some q.1) (sym e))
with_ids-get_elem? i (y ∷ xs) id x few (inr m) =
    let (k, same, at) = with_ids-get_elem? (suc i) xs id x (omega arith) m in
    (suc k, omega arith, at)

flow_of_call-id : (c : Call) (f : ValueFlow) → flow_of_call c ≡ some f → f.call_id ≡ c.id
unfolding flow_of_call
flow_of_call-id c f h = ground arith

flows_of-Member :
    (cs : List Call) (flow : ValueFlow)
    → Member flow (flows_of cs)
    → (c : Call) × Member c cs × (flow.call_id ≡ c.id)
flows_of-Member [] flow m = absurd m
flows_of-Member (c ∷ cs) flow m = elim (Option-cases (flow_of_call c)) [
  | inl no_value ↦
      let (d, old, same) = flows_of-Member cs flow (rw (no_value, flows_of) at m) in
      (d, inr old, same)
  | inr (f, made) ↦ elim (rw (made, flows_of) at m) [
    | inl e ↦ (c, inl refl, ap (λ (q : ValueFlow). q.call_id) e ∙ flow_of_call-id c f made)
    | inr rest ↦ let (d, old, same) = flows_of-Member cs flow rest in (d, inr old, same)
  ]
]

module _ (t : Trace) (indexed : IsIndexed t.arena) where
  -- A call of the arena stands at its id.
  call_at : (c : Call) → Member c t.arena.calls → get_elem? t.arena.calls c.id ≡ some c
  call_at c m =
      let (i, at) = Member-get_elem? t.arena.calls c m in
      let same : c.id ≡ i =
        omega (arith, IdsFrom-get_elem? 0 t.arena.calls i c indexed.call_ids at) in
      ap (get_elem? t.arena.calls) same ∙ at

  log_at : (l : LogEvent) → Member l t.arena.logs → get_elem? t.arena.logs l.id ≡ some l
  log_at l m =
      let (i, at) = Member-get_elem? t.arena.logs l m in
      let same : l.id ≡ i =
        omega (arith, LogIdsFrom-get_elem? 0 t.arena.logs i l indexed.log_ids at) in
      ap (get_elem? t.arena.logs) same ∙ at

  change_at :
      (id : ℕ) (change : StorageChange)
      → Member (id, change) (storage_changes_with_ids t.arena)
      → get_elem? t.arena.storage_changes id ≡ some change
  unfolding storage_changes_with_ids
  change_at id change m =
      let (k, same, at) =
        with_ids-get_elem? 0 t.arena.storage_changes id change (omega (arith, indexed.few_changes))
          m in
      let here : id ≡ k = omega arith in rw here at

  transfer_at :
      (id : ℕ) (transfer : TokenTransfer)
      → Member (id, transfer) (token_transfers_with_ids t.arena)
      → get_elem? t.arena.token_transfers id ≡ some transfer
  unfolding token_transfers_with_ids
  transfer_at id transfer m =
      let (k, same, at) =
        with_ids-get_elem? 0 t.arena.token_transfers id transfer
          (omega (arith, indexed.few_transfers)) m in
      let here : id ≡ k = omega arith in rw here at

  -- A binding that cites a call by its id is placed.
  cited_call :
      (b : Binding) (c : Call)
      → Member c t.arena.calls
      → b.fact ≡ call_ref c.id
      → b.order ≡ some c.id
      → IsPlaced t b
  unfolding order_key call
  cited_call b c m fact order =
      let at = call_at c m in
      rw fact (lt-length_of_get_elem? t.arena.calls c.id c at, order ∙ sym (rw (at, call_index)))

  pub evaluate_call-IsPlaced :
      (index : TraceIndex) (p : CompiledPredicate) (b : Binding)
      → Member b (evaluate_call t index p)
      → IsPlaced t b
  unfolding evaluate_call
  evaluate_call-IsPlaced index p b m =
      let (c, kept, e) =
        Member-map call_binding (filter (call_matches t index p) t.arena.calls) b m in
      let (old, holds) = Member-filter (call_matches t index p) t.arena.calls c kept in
      cited_call b c old (ap (λ (x : Binding). x.fact) e) (ap (λ (x : Binding). x.order) e)

  pub evaluate_value_flow-IsPlaced :
      (p : CompiledPredicate) (b : Binding) → Member b (evaluate_value_flow t p) → IsPlaced t b
  unfolding evaluate_value_flow
  evaluate_value_flow-IsPlaced p b m =
      let (flow, kept, e) =
        Member-map flow_binding (filter (flow_matches t p) (value_flows t.arena)) b m in
      let (old, holds) = Member-filter (flow_matches t p) (value_flows t.arena) flow kept in
      let (c, there, same) = flows_of-Member t.arena.calls flow old in
      cited_call b c there (ap (λ (x : Binding). x.fact) e ∙ ap call_ref same)
        (ap (λ (x : Binding). x.order) e ∙ ap some same)

  pub evaluate_storage-IsPlaced :
      (p : CompiledPredicate) (b : Binding) → Member b (evaluate_storage t p) → IsPlaced t b
  unfolding evaluate_storage order_key storage_change
  evaluate_storage-IsPlaced p b m =
      let ((id, change), kept, e) =
        Member-map (storage_binding t p)
          (filter (storage_matches t p) (storage_changes_with_ids t.arena)) b m in
      let (old, holds) =
        Member-filter (storage_matches t p) (storage_changes_with_ids t.arena) (id, change) kept in
      let at = change_at id change old in
      rw e (lt-length_of_get_elem? t.arena.storage_changes id change at, rw at)

  pub evaluate_token_transfer-IsPlaced :
      (p : CompiledPredicate) (b : Binding) → Member b (evaluate_token_transfer t p) → IsPlaced t b
  unfolding evaluate_token_transfer order_key token_transfer
  evaluate_token_transfer-IsPlaced p b m =
      let ((id, x), kept, e) =
        Member-map (transfer_binding t p)
          (filter (transfer_matches t p) (token_transfers_with_ids t.arena)) b m in
      let (old, holds) =
        Member-filter (transfer_matches t p) (token_transfers_with_ids t.arena) (id, x) kept in
      let at = transfer_at id x old in
      rw e (lt-length_of_get_elem? t.arena.token_transfers id x at, rw at)

  pub evaluate_log-IsPlaced :
      (p : CompiledPredicate) (b : Binding) → Member b (evaluate_log t p) → IsPlaced t b
  unfolding evaluate_log order_key log
  evaluate_log-IsPlaced p b m =
      let (l, kept, e) = Member-map (log_binding t) (filter (log_matches t p) t.arena.logs) b m in
      let (old, holds) = Member-filter (log_matches t p) t.arena.logs l kept in
      let at = log_at l old in rw e (lt-length_of_get_elem? t.arena.logs l.id l at, rw at)

  -- The binding of a `transaction` predicate cites the root call and has no position.
  pub evaluate_transaction-root :
      (p : CompiledPredicate) (b : Binding)
      → Member b (evaluate_transaction t p)
      → (c : Call) × (get_elem? t.arena.calls 0 ≡ some c)
        × (b.fact ≡ call_ref c.id)
        × (b.order ≡ none)
  unfolding evaluate_transaction
  evaluate_transaction-root p b m = elim (Bool-cases (transaction_matches t p)) [
    | inl kept ↦ elim (Option-cases (get_elem? t.arena.calls 0)) [
      | inl empty ↦ absurd (rw (kept, evaluate_transaction, empty) at m)
      | inr (c, at) ↦ elim (rw (kept, evaluate_transaction, at) at m) [
        | inl e ↦ (c, at, ap (λ (x : Binding). x.fact) e, ap (λ (x : Binding). x.order) e)
        | inr none_left ↦ absurd none_left
      ]
    ]
    | inr dropped ↦ absurd (rw (dropped, evaluate_transaction) at m)
  ]
