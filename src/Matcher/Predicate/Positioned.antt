-- ===== src/Matcher/Predicate/Positioned.antt =====
-- Where the bindings of `evaluate` stand in execution order.
use rootcause.Prelude.{
  ℕ, zero, suc, ◌≤◌, ◌<◌, ◌≡◌, ap, ◌∙◌, ◌⊎◌, inl, inr, true, false, none, some, List, [], ◌∷◌, ◌==◌,
  string_Eq, length, get_elem?, Member, All-get_elem?, lt-length_of_get_elem?, arith,
}
use rootcause.Facts.Types.{CallId, call_ref}
use rootcause.Facts.Arena.Valid.{WellFormed}
use rootcause.Facts.Arena.Ids.{IdsFrom-get_elem?, IsIndexed}
use rootcause.Facts.Trace.{Trace}
use rootcause.Dsl.Ir.{CompiledPredicate}
use rootcause.Matcher.Binding.{Binding}
use rootcause.Matcher.Identity.{Resolves, producing_call, order_key-eq-producing_call}
use rootcause.Matcher.Index.{TraceIndex}
use rootcause.Matcher.Order.{sort_by_order-IsSorted, sort_by_order-Member}
use rootcause.Matcher.Sequence.Greedy.{KeyLe, IsSorted}
use rootcause.Matcher.Predicate.{dispatch, evaluate}
use rootcause.Matcher.Predicate.Placed.{dispatch-IsPlacedOrRoot}

-- The binding of a `transaction` predicate cites the root call and has no position. Any other
-- binding has a position, which is that of the call that produced its fact, and that call exists.
abbrev pub HasPosition : Trace → CompiledPredicate → Binding → Type 0
HasPosition t p b =
    (((p.kind == "transaction") ≡ true) × (b.order ≡ none) × (b.fact ≡ call_ref 0))
    ⊎ (((p.kind == "transaction") ≡ false)
        × ((k : CallId) × (producing_call t b.fact ≡ some k)
            × (b.order ≡ some k)
            × (k < length t.arena.calls)))

pub evaluate-HasPosition :
    (t : Trace) (index : TraceIndex) (p : CompiledPredicate) (b : Binding)
    → WellFormed t.arena
    → IsIndexed t.arena
    → Member b (evaluate t index p)
    → Resolves t.arena b.fact × HasPosition t p b
unfolding evaluate
evaluate-HasPosition t index p b w indexed m =
    elim (dispatch-IsPlacedOrRoot t indexed index p b
      ((sort_by_order-Member (dispatch t index p) b).0 m)) [
        | inl (other, (exists, order)) ↦
            let (k, made, key, low) =
              order_key-eq-producing_call t b.fact w indexed.call_ids exists in
            (exists, inr (other, (k, made, order ∙ key, low)))
        | inr (kind, (c, at, fact, order)) ↦
            let here : c.id ≡ 0 =
              omega (arith, IdsFrom-get_elem? 0 t.arena.calls 0 c indexed.call_ids at) in
            let low = lt-length_of_get_elem? t.arena.calls 0 c at in
            (rw fact (rw here low), inl (kind, order, fact ∙ ap call_ref here))
      ]

get_elem?-Member : (bs : List Binding) (i : ℕ) (b : Binding) → get_elem? bs i ≡ some b → Member b bs
get_elem?-Member [] i b h = absurd (cc)
get_elem?-Member (x ∷ xs) zero b h = inl (cc)
get_elem?-Member (x ∷ xs) (suc i) b h = inr (get_elem?-Member xs i b h)

IsSorted-KeyLe :
    (bs : List Binding) (i j : ℕ) (b c : Binding)
    → IsSorted bs
    → i < j
    → get_elem? bs i ≡ some b
    → get_elem? bs j ≡ some c
    → KeyLe b.order c.order
IsSorted-KeyLe [] i j b c sorted before at_i at_j = absurd (cc)
IsSorted-KeyLe (x ∷ xs) zero zero b c sorted before at_i at_j = absurd (omega arith)
IsSorted-KeyLe (x ∷ xs) zero (suc j) b c sorted before at_i at_j =
    let same : x ≡ b = cc in rw (← same) (All-get_elem? _ xs j c sorted.0 at_j)
IsSorted-KeyLe (x ∷ xs) (suc i) zero b c sorted before at_i at_j = absurd (omega arith)
IsSorted-KeyLe (x ∷ xs) (suc i) (suc j) b c sorted before at_i at_j =
    IsSorted-KeyLe xs i j b c sorted.1 (omega arith) at_i at_j

-- The result of `evaluate` is in execution order, with bindings that have no position first.
evaluate-IsSorted :
    (t : Trace) (index : TraceIndex) (p : CompiledPredicate) → IsSorted (evaluate t index p)
unfolding evaluate
evaluate-IsSorted t index p = sort_by_order-IsSorted (dispatch t index p)

-- The calls that produced the facts of two bindings, the first of which is not the later call.
abbrev pub Chronological : Trace → Binding → Binding → Type 0
Chronological t b c =
    (k : CallId) × (l : CallId) × (producing_call t b.fact ≡ some k)
    × (producing_call t c.fact ≡ some l)
    × (k ≤ l)

-- In a well-formed arena whose ids are positions, the matches of a predicate are listed in execution
-- order: of two bindings of `evaluate`, the earlier one in the list cites a fact whose producing
-- call is the other's or comes before it.
pub evaluate-Chronological :
    (t : Trace) (index : TraceIndex) (p : CompiledPredicate) (i j : ℕ) (b c : Binding)
    → WellFormed t.arena
    → IsIndexed t.arena
    → i < j
    → get_elem? (evaluate t index p) i ≡ some b
    → get_elem? (evaluate t index p) j ≡ some c
    → Chronological t b c
unfolding producing_call
evaluate-Chronological t index p i j b c w indexed before at_i at_j =
    let found = evaluate t index p in
    let key = IsSorted-KeyLe found i j b c (evaluate-IsSorted t index p) before at_i at_j in
    let (_, first) = evaluate-HasPosition t index p b w indexed (get_elem?-Member found i b at_i) in
    let (_, second) =
      evaluate-HasPosition t index p c w indexed (get_elem?-Member found j c at_j) in
    elim first [
      | inl (kind, order, fact) ↦ elim second [
        | inl (kind', order', fact') ↦ (0, 0, rw fact, rw fact', omega arith)
        | inr (other, rest) ↦ absurd (cc)
      ]
      | inr (other, (k, made, order, low)) ↦ elim second [
        | inl (kind, no_place, root) ↦ absurd (cc)
        | inr (other', (l, made', order', low')) ↦
            (k, l, made, made', let le = rw (order, order') at key in omega arith)
      ]
    ]
