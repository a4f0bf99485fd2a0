-- ===== src/Matcher/Predicate/Placed.antt =====
-- What every binding of `evaluate` satisfies, whatever its kind.
use rootcause.Prelude.{
  ◌≡◌, refl, ◌⊎◌, inl, inr, true, false, String, none, some, ◌==◌, string_Eq, get_elem?, Member,
  lt-length_of_get_elem?, Bool-cases, arith,
}
use rootcause.Facts.Types.{Call, call_ref}
use rootcause.Facts.Arena.Ids.{IdsFrom-get_elem?, IsIndexed}
use rootcause.Facts.Trace.{Trace}
use rootcause.Dsl.Ir.{CompiledPredicate}
use rootcause.Matcher.Binding.{Binding}
use rootcause.Matcher.Identity.{Resolves, order_key}
use rootcause.Matcher.Index.{TraceIndex}
use rootcause.Matcher.Order.{sort_by_order-Member}
use rootcause.Matcher.Predicate.{dispatch, evaluate}
use rootcause.Matcher.Predicate.Sound.{
  IsPlaced, evaluate_call-IsPlaced, evaluate_storage-IsPlaced, evaluate_value_flow-IsPlaced,
  evaluate_token_transfer-IsPlaced, evaluate_log-IsPlaced, evaluate_transaction-root,
}

other_kind :
    (kind name : String)
    → (name == "transaction") ≡ false
    → (kind == name) ≡ true
    → (kind == "transaction") ≡ false
other_kind kind name differs same = rw ((string_Eq.eqb_iff kind name).0 same) differs

module _ (t : Trace) (indexed : IsIndexed t.arena) where
  -- A binding of `dispatch` is placed, or stands for the whole transaction, by the kind.
  abbrev pub IsPlacedOrRoot : CompiledPredicate → Binding → Type 0
  IsPlacedOrRoot p b =
      (((p.kind == "transaction") ≡ false) × IsPlaced t b)
      ⊎ (((p.kind == "transaction") ≡ true)
          × ((c : Call) × (get_elem? t.arena.calls 0 ≡ some c)
              × (b.fact ≡ call_ref c.id)
              × (b.order ≡ none)))

  pub dispatch-IsPlacedOrRoot :
      (index : TraceIndex) (p : CompiledPredicate) (b : Binding)
      → Member b (dispatch t index p)
      → IsPlacedOrRoot p b
  unfolding dispatch
  dispatch-IsPlacedOrRoot index p b m = elim (Bool-cases (p.kind == "call")) [
    | inl k ↦ inl (
      other_kind p.kind "call" refl k,
      evaluate_call-IsPlaced t indexed index p b (rw (k, dispatch) at m),
    )
    | inr k₁ ↦ elim (Bool-cases (p.kind == "storage")) [
      | inl k ↦ inl (
        other_kind p.kind "storage" refl k,
        evaluate_storage-IsPlaced t indexed p b (rw (k₁, k, dispatch) at m),
      )
      | inr k₂ ↦ elim (Bool-cases (p.kind == "value_flow")) [
        | inl k ↦ inl (
          other_kind p.kind "value_flow" refl k,
          evaluate_value_flow-IsPlaced t indexed p b (rw (k₁, k₂, k, dispatch) at m),
        )
        | inr k₃ ↦ elim (Bool-cases (p.kind == "token_transfer")) [
          | inl k ↦ inl (
            other_kind p.kind "token_transfer" refl k,
            evaluate_token_transfer-IsPlaced t indexed p b (rw (k₁, k₂, k₃, k, dispatch) at m),
          )
          | inr k₄ ↦ elim (Bool-cases (p.kind == "transaction")) [
            | inl k ↦
                inr (
                  k,
                  evaluate_transaction-root t indexed p b (rw (k₁, k₂, k₃, k₄, k, dispatch) at m),
                )
            | inr k₅ ↦ elim (Bool-cases (p.kind == "log")) [
              | inl k ↦ inl (
                k₅,
                evaluate_log-IsPlaced t indexed p b (rw (k₁, k₂, k₃, k₄, k₅, k, dispatch) at m),
              )
              | inr k₆ ↦ absurd (rw (k₁, k₂, k₃, k₄, k₅, k₆, dispatch) at m)
            ]
          ]
        ]
      ]
    ]
  ]

-- In an arena whose ids are positions, every binding of `evaluate` cites a fact that exists, and has
-- the position that `order_key` gives that fact or, of a `transaction` predicate, none.
pub evaluate-IsPlaced :
    (t : Trace) (index : TraceIndex) (p : CompiledPredicate) (b : Binding)
    → IsIndexed t.arena
    → Member b (evaluate t index p)
    → Resolves t.arena b.fact
      × ((b.order ≡ order_key t b.fact) ⊎ (((p.kind == "transaction") ≡ true) × (b.order ≡ none)))
unfolding evaluate
evaluate-IsPlaced t index p b indexed m =
    elim (dispatch-IsPlacedOrRoot t indexed index p b
      ((sort_by_order-Member (dispatch t index p) b).0 m)) [
        | inl (other, (exists, order)) ↦ (exists, inl order)
        | inr (kind, (c, at, fact, order)) ↦
            let here : c.id ≡ 0 =
              omega (arith, IdsFrom-get_elem? 0 t.arena.calls 0 c indexed.call_ids at) in
            let low = lt-length_of_get_elem? t.arena.calls 0 c at in
            (rw fact (rw here low), inr (kind, order))
      ]
