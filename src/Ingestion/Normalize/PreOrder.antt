-- ===== src/Ingestion/Normalize/PreOrder.antt =====
-- The walk against a recursive traversal that visits a call before its children.
use rootcause.Prelude.{
  ℕ, suc, ◌+◌, ◌≤◌, ◌-◌, ◌%◌, ◌≡◌, refl, ap, ◌∙◌, inl, inr, Option, none, some, List, [], ◌∷◌, ◌++◌,
  Result, ok, err, ◌>>=◌, length, Result-cases, arith,
}
use rootcause.Facts.Types.{Address}
use rootcause.Facts.Arena.{u16_mod}
use rootcause.Ingestion.Error.{IngestionError, CallPath}
use rootcause.Ingestion.Raw.{RawCall, raw_call, RawCalls, no_calls, more_calls}
use rootcause.Ingestion.Normalize.{Accumulator}
use rootcause.Ingestion.Normalize.Walk.{
  PendingCall, visit, enumerate_rev, pending_child, push_all, walk_loop, size, sizes, pending_root,
  calls_of,
}

abbrev pending : RawCall → Option ℕ → ℕ → Option Address → CallPath → PendingCall
pending raw parent depth parent_context path = record {
  raw = raw;
  parent_index = parent;
  depth = depth;
  parent_storage_context = parent_context;
  path = path;
}

-- A traversal without a stack: the call, then its children in execution order, each with the call's
-- index, its depth and one more, its storage context, and its path.
unfoldable mutual
  unfolding visit

  pub traverse_call :
      RawCall
      → Option ℕ
      → ℕ
      → Option Address
      → CallPath
      → Accumulator
      → Result IngestionError Accumulator
  traverse_call (raw_call frame calls) parent depth parent_context path acc =
      visit (pending (raw_call frame calls) parent depth parent_context path) acc
      >>= λ (next, context).
          traverse_calls calls 0 (length acc.calls) ((depth + 1) % u16_mod) context path next

  pub traverse_calls :
      RawCalls → ℕ → ℕ → ℕ → Address → CallPath → Accumulator → Result IngestionError Accumulator
  traverse_calls no_calls i parent depth context path acc = ok acc
  traverse_calls (more_calls c cs) i parent depth context path acc =
      traverse_call c (some parent) depth (some context) (i ∷ path) acc
      >>= traverse_calls cs (suc i) parent depth context path

-- What is left after a tree: the rest of the stack with the rest of the fuel.
abbrev continue :
    ℕ → List PendingCall → Result IngestionError Accumulator → Result IngestionError Accumulator
unfolding walk_loop
continue fuel stack r = r >>= λ acc. walk_loop fuel stack acc

-- The children in order, above the rest of the stack.
abbrev pub pending_children :
    PendingCall → ℕ → Address → ℕ → RawCalls → List PendingCall → List PendingCall
pending_children item this_index context i no_calls stack = stack
pending_children item this_index context i (more_calls c cs) stack =
    pending_child item this_index context (i, c)
    ∷ pending_children item this_index context (suc i) cs stack

push_all-append :
    (item : PendingCall) (this_index : ℕ) (context : Address) (xs ys : List (ℕ × RawCall))
    (stack : List PendingCall)
    → push_all item this_index context (xs ++ ys) stack
      ≡ push_all item this_index context ys (push_all item this_index context xs stack)
push_all-append item this_index context [] ys stack = refl
push_all-append item this_index context (x ∷ xs) ys stack =
    push_all-append item this_index context xs ys (pending_child item this_index context x ∷ stack)

push_all-enumerate_rev :
    (item : PendingCall) (this_index : ℕ) (context : Address) (i : ℕ) (cs : RawCalls)
    (stack : List PendingCall)
    → push_all item this_index context (enumerate_rev i cs) stack
      ≡ pending_children item this_index context i cs stack
push_all-enumerate_rev item this_index context i no_calls stack = refl
push_all-enumerate_rev item this_index context i (more_calls c cs) stack =
    push_all-append item this_index context (enumerate_rev (suc i) cs) ((i, c) ∷ []) stack
    ∙ ap (λ (s : List PendingCall). pending_child item this_index context (i, c) ∷ s)
        (push_all-enumerate_rev item this_index context (suc i) cs stack)

pub walk_loop-visit :
    (item : PendingCall) (fuel : ℕ) (stack : List PendingCall) (acc next : Accumulator)
    (context : Address)
    → visit item acc ≡ ok (next, context)
    → walk_loop (suc fuel) (item ∷ stack) acc
      ≡ walk_loop fuel
          (pending_children item (length acc.calls) context 0 (calls_of item.raw) stack)
          next
unfolding walk_loop
walk_loop-visit item fuel stack acc next context visited =
    let children =
      push_all-enumerate_rev item (length acc.calls) context 0 (calls_of item.raw) stack in
    rw (← children) (rw (visited, walk_loop) refl)

walk_loop-err :
    (item : PendingCall) (fuel : ℕ) (stack : List PendingCall) (acc : Accumulator)
    (e : IngestionError)
    → visit item acc ≡ err e
    → walk_loop (suc fuel) (item ∷ stack) acc ≡ err e
unfolding walk_loop
walk_loop-err item fuel stack acc e failed = rw (failed, walk_loop)

mutual
  unfolding walk_loop traverse_call

  call-continue :
      (c : RawCall) (parent : Option ℕ) (depth : ℕ) (parent_context : Option Address)
      (path : CallPath) (fuel : ℕ) (stack : List PendingCall) (acc : Accumulator)
      → walk_loop (size c + fuel) (pending c parent depth parent_context path ∷ stack) acc
        ≡ continue fuel stack (traverse_call c parent depth parent_context path acc)
  call-continue (raw_call frame calls) parent depth parent_context path fuel stack acc =
      let item = pending (raw_call frame calls) parent depth parent_context path in
      let steps : size (raw_call frame calls) + fuel ≡ suc (sizes calls + fuel) = omega arith in
      elim (Result-cases (visit item acc)) [
        | inr (e, failed) ↦
            let stopped = walk_loop-err item (sizes calls + fuel) stack acc e failed in
            rw (steps, stopped) (rw (failed, traverse_call) refl)
        | inl ((next, context), visited) ↦
            let moved = walk_loop-visit item (sizes calls + fuel) stack acc next context visited in
            let rest = calls-continue calls 0 item (length acc.calls) context fuel stack next in
            rw (steps, moved, rest) (rw (visited, traverse_call) refl)
      ]

  calls-continue :
      (cs : RawCalls) (i : ℕ) (item : PendingCall) (this_index : ℕ) (context : Address) (fuel : ℕ)
      (stack : List PendingCall) (acc : Accumulator)
      → walk_loop (sizes cs + fuel) (pending_children item this_index context i cs stack) acc
        ≡ continue fuel stack
            (traverse_calls cs i this_index ((item.depth + 1) % u16_mod) context item.path acc)
  calls-continue no_calls i item this_index context fuel stack acc =
      let steps : 0 + fuel ≡ fuel = omega arith in rw steps refl
  calls-continue (more_calls c cs) i item this_index context fuel stack acc =
      let depth = (item.depth + 1) % u16_mod in
      let rest = pending_children item this_index context (suc i) cs stack in
      let first = traverse_call c (some this_index) depth (some context) (i ∷ item.path) acc in
      let steps : size c + sizes cs + fuel ≡ size c + (sizes cs + fuel) = omega arith in
      let moved =
        call-continue c (some this_index) depth (some context) (i ∷ item.path) (sizes cs + fuel)
          rest acc in
      rw (steps, moved)
        (elim (Result-cases first) [
          | inr (e, failed) ↦ rw failed refl
          | inl (next, done) ↦
              rw done (calls-continue cs (suc i) item this_index context fuel stack next)
        ])

-- With as much fuel as the tree has calls, or more, the walk with its stack does not run out of it,
-- and does what the recursive traversal does, result or error: every call before its children, the
-- children in order.
pub walk_loop-traverse_call :
    (root : RawCall) (acc : Accumulator) (fuel : ℕ)
    → size root ≤ fuel
    → walk_loop fuel (pending_root root ∷ []) acc ≡ traverse_call root none 0 none [] acc
unfolding walk_loop
walk_loop-traverse_call root acc fuel enough =
    let steps : fuel ≡ size root + (fuel - size root) = omega arith in
    let done = call-continue root none 0 none [] (fuel - size root) [] acc in
    elim (Result-cases (traverse_call root none 0 none [] acc)) [
      | inr (e, failed) ↦ rw (steps, done) (rw failed refl)
      | inl (next, finished) ↦ rw (steps, done) (rw finished refl)
    ]
