-- ===== src/Ingestion/Normalize/Valid.antt =====
-- What `normalize` guarantees of the facts that it returns.
use rootcause.Prelude.{
  ℕ, zero, suc, ◌+◌, ◌%◌, ◌≤◌, ◌<◌, ◌≡◌, refl, sym, ap, ◌∙◌, inl, inr, some, List, [], ◌∷◌, ◌++◌,
  ok, >>=-eq-ok, ok-injective, All, All-map, length, length-append, get_elem?,
  get_elem?-append_length, Result-cases, arith,
}
use rootcause.Facts.Types.{Address}
use rootcause.Facts.Arena.{u16_mod}
use rootcause.Ingestion.Raw.{RawCall, raw_call, RawCalls, no_calls, more_calls, RawTraceDocument}
use rootcause.Ingestion.HexUtil.{parse_hex_u64, parse_hex_u128, parse_address, parse_word}
use rootcause.Ingestion.Normalize.{NormalizedCall, Accumulator, traverse}
use rootcause.Ingestion.Normalize.Walk.{
  PendingCall, calls_of, visit, walk_loop, walk_tree, pending_root, sizes, NormalizedTrace,
  empty_accumulator, status_from, normalize,
}
use rootcause.Ingestion.Normalize.PreOrder.{pending_children, walk_loop-visit}
use rootcause.Ingestion.Normalize.Placed.{
  ContextOf, CallsAreValid, ChangeIsValid, LogIsValid, TransferIsValid, LogsAreDistinct,
  FactsAreValid,
}
use rootcause.Ingestion.Normalize.Visit.{HasParent, HasParent-append, IsVisited, visit-IsVisited}

-- The children of a visited call have their parent.
pending_children-HasParent :
    (calls : List NormalizedCall) (item : PendingCall) (this_index : ℕ) (c : NormalizedCall)
    (context : Address) (i : ℕ) (cs : RawCalls) (stack : List PendingCall)
    → get_elem? calls this_index ≡ some c
    → c.depth ≡ item.depth
    → ContextOf calls this_index context
    → All (HasParent calls) stack
    → All (HasParent calls) (pending_children item this_index context i cs stack)
pending_children-HasParent calls item this_index c context i no_calls stack here level owner rest =
    rest
pending_children-HasParent calls item this_index c context i (more_calls child cs) stack here level
      owner rest =
    (
      (
        this_index,
        c,
        context,
        refl,
        here,
        ap (λ (n : ℕ). (n + 1) % u16_mod) (sym level),
        refl,
        owner,
      ),
      pending_children-HasParent calls item this_index c context (suc i) cs stack here level owner
          rest,
    )

-- The stack that a visit leaves.
visited_stack :
    (item : PendingCall) (acc next : Accumulator) (context : Address) (stack : List PendingCall)
    → IsVisited item acc next context
    → All (HasParent acc.calls) stack
    → All
        (HasParent next.calls)
        (pending_children item (length acc.calls) context 0 (calls_of item.raw) stack)
visited_stack item acc next context stack done rest =
    pending_children-HasParent next.calls item (length acc.calls) done.new_call context 0
      (calls_of item.raw) stack (rw done.grown (get_elem?-append_length acc.calls [] done.new_call))
      done.depth done.owner
      (rw done.grown (
        All-map (HasParent acc.calls) (HasParent (acc.calls ++ done.new_call ∷ [])) stack
          (λ x. HasParent-append acc.calls (done.new_call ∷ []) x) rest))

walk_loop-FactsAreValid :
    (fuel : ℕ) (stack : List PendingCall) (acc result : Accumulator)
    → FactsAreValid acc
    → All (HasParent acc.calls) stack
    → walk_loop fuel stack acc ≡ ok result
    → FactsAreValid result × (length acc.calls ≤ length result.calls)
unfolding walk_loop
walk_loop-FactsAreValid fuel [] acc result valid ready h =
    let same : acc ≡ result = ok-injective h in rw (← same) (valid, omega arith)
walk_loop-FactsAreValid zero (item ∷ stack) acc result valid ready h = absurd (cc)
walk_loop-FactsAreValid (suc fuel) (item ∷ stack) acc result valid (first, rest) h =
    elim (Result-cases (visit item acc)) [
      | inr (e, failed) ↦ absurd (let stuck = rw (failed, walk_loop) at h in cc)
      | inl ((next, context), visited) ↦
          let done = visit-IsVisited item acc next context valid (inr first) visited in
          let (facts, longer) =
            walk_loop-FactsAreValid fuel
              (pending_children item (length acc.calls) context 0 (calls_of item.raw) stack) next
              result done.facts (visited_stack item acc next context stack done rest)
              (sym (walk_loop-visit item fuel stack acc next context visited) ∙ h) in
          let grown = ap length done.grown in
          let more = length-append acc.calls (done.new_call ∷ []) in (facts, omega arith)
    ]

empty-FactsAreValid : FactsAreValid empty_accumulator
empty-FactsAreValid = record {
  calls = λ i c h. absurd (cc);
  changes = tt;
  logs = tt;
  transfers = tt;
  seen = tt;
  distinct = λ i j l m h k e. absurd (cc);
}

-- The walk from the root leaves valid facts, and one call at least.
walk_tree-FactsAreValid :
    (root : RawCall) (result : Accumulator)
    → walk_tree root empty_accumulator ≡ ok result
    → FactsAreValid result × (0 < length result.calls)
unfolding walk_tree walk_loop
walk_tree-FactsAreValid (raw_call frame calls) result h =
    let root = raw_call frame calls in
    let item = pending_root root in
    elim (Result-cases (visit item empty_accumulator)) [
      | inr (e, failed) ↦ absurd (let stuck = rw (failed, walk_tree, walk_loop) at h in cc)
      | inl ((next, context), visited) ↦
          let done =
            visit-IsVisited item empty_accumulator next context empty-FactsAreValid
              (inl (refl, refl, refl, refl)) visited in
          let (facts, longer) =
            walk_loop-FactsAreValid (sizes calls) (pending_children item 0 context 0 calls []) next
              result done.facts (visited_stack item empty_accumulator next context [] done tt)
              (sym (walk_loop-visit item (sizes calls) [] empty_accumulator next context visited)
                ∙ h) in
          let grown : length next.calls ≡ 1 = ap length done.grown in (facts, omega arith)
    ]

-- What a normalized trace holds: one root, which comes first; every other call after its parent and
-- one level below it, 1024 at most; every storage change in the storage that its call writes; every
-- log with a call, four topics at most, and an index that no other log has; every transfer with a log.
pub record IsValid (n : NormalizedTrace) : Type 0 where
  pub some_call : 0 < length n.calls
  pub calls : CallsAreValid n.calls
  pub changes : All (ChangeIsValid n.calls) n.storage_changes
  pub logs : All (LogIsValid n.calls) n.logs
  pub transfers : All (TransferIsValid n.logs) n.token_transfers
  pub distinct : LogsAreDistinct n.logs

same_normalized : (n m : NormalizedTrace) → n ≡ m → IsValid n → IsValid m
same_normalized n m same valid = rw (← same) valid

-- Every trace that `normalize` returns is valid: one root, which comes first; every other call after
-- its parent, one level below it and at most 1024 deep; every storage change in the storage that its
-- call writes, its own target's or, in a caller's context, its parent's; every log with a call, with
-- four topics at most and an index below 2^32 that no other log has; every transfer with a log.
pub normalize-IsValid :
    (doc : RawTraceDocument) (n : NormalizedTrace) → normalize doc ≡ ok n → IsValid n
unfolding normalize
normalize-IsValid doc n h =
    let (hash, _, h₁) = >>=-eq-ok (parse_word "transaction.hash" doc.transaction.hash) _ h in
    let (from, _, h₂) = >>=-eq-ok (parse_address "transaction.from" doc.transaction.from) _ h₁ in
    let (to, _, h₃) =
      >>=-eq-ok (traverse (parse_address "transaction.to") doc.transaction.to) _ h₂ in
    let (value, _, h₄) =
      >>=-eq-ok (parse_hex_u128 "transaction.value" doc.transaction.value) _ h₃ in
    let (nonce, _, h₅) = >>=-eq-ok (parse_hex_u64 "transaction.nonce" doc.transaction.nonce) _ h₄ in
    let (gas_used, _, h₆) =
      >>=-eq-ok (parse_hex_u64 "transaction.gasUsed" doc.transaction.gas_used) _ h₅ in
    let (status, _, h₇) = >>=-eq-ok (status_from doc.transaction.status) _ h₆ in
    let (number, _, h₈) = >>=-eq-ok (parse_hex_u64 "block.number" doc.block.number) _ h₇ in
    let (timestamp, _, h₉) = >>=-eq-ok (parse_hex_u64 "block.timestamp" doc.block.timestamp) _ h₈ in
    let (chain_id, _, h₁₀) = >>=-eq-ok (parse_hex_u64 "block.chainId" doc.block.chain_id) _ h₉ in
    let (base_fee, _, h₁₁) =
      >>=-eq-ok (traverse (parse_hex_u128 "block.baseFee") doc.block.base_fee) _ h₁₀ in
    let (acc, walked, h₁₂) = >>=-eq-ok (walk_tree doc.root empty_accumulator) _ h₁₁ in
    let (facts, some_call) = walk_tree-FactsAreValid doc.root acc walked in
    same_normalized _ n (ok-injective h₁₂) (record {
      some_call = some_call;
      calls = facts.calls;
      changes = facts.changes;
      logs = facts.logs;
      transfers = facts.transfers;
      distinct = facts.distinct;
    })
