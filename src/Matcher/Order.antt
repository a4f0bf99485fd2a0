-- ===== src/Matcher/Order.antt =====
-- `sort_by_key(|b| b.order)`: Rust's stable sort by the order on `Option<u32>`, as an insertion
-- sort, which is stable too.
use rootcause.Prelude.{
  ℕ, ◌≡◌, Bool, true, false, Option, none, some, List, [], ◌∷◌, ◌⊎◌, inl, inr, ◌↔◌, leb,
  if◌then◌else◌, All-map, Member, Member-All, All-Member, Bool-cases, arith,
}
use rootcause.Matcher.Binding.{Binding}
use rootcause.Matcher.Sequence.Greedy.{KeyLe, IsSorted}

abbrev pub order_leb : Option ℕ → Option ℕ → Bool
order_leb none b = true
order_leb (some x) none = false
order_leb (some x) (some y) = leb x y

insert_by_order : Binding → List Binding → List Binding
insert_by_order b [] = b ∷ []
insert_by_order b (c ∷ cs) =
    if order_leb b.order c.order then b ∷ c ∷ cs else c ∷ insert_by_order b cs

unfoldable pub sort_by_order : List Binding → List Binding
unfolding insert_by_order
sort_by_order [] = []
sort_by_order (b ∷ bs) = insert_by_order b (sort_by_order bs)

order_leb-KeyLe : (a b : Option ℕ) → order_leb a b ≡ true → KeyLe a b
order_leb-KeyLe none b h = tt
order_leb-KeyLe (some x) none h = absurd (cc)
order_leb-KeyLe (some x) (some y) h = ground arith

order_leb-false : (a b : Option ℕ) → order_leb a b ≡ false → KeyLe b a
order_leb-false none b h = absurd (cc)
order_leb-false (some x) none h = tt
order_leb-false (some x) (some y) h = ground arith

KeyLe-trans : (a b c : Option ℕ) → KeyLe a b → KeyLe b c → KeyLe a c
KeyLe-trans none b c h k = tt
KeyLe-trans (some x) none c h k = absurd h
KeyLe-trans (some x) (some y) none h k = absurd k
KeyLe-trans (some x) (some y) (some z) h k = omega arith

insert_by_order-Member :
    (b : Binding) (cs : List Binding) (x : Binding)
    → Member x (insert_by_order b cs) ↔ ((x ≡ b) ⊎ Member x cs)
unfolding insert_by_order
insert_by_order-Member b [] x = (λ m. m, λ m. m)
insert_by_order-Member b (c ∷ cs) x = elim (Bool-cases (order_leb b.order c.order)) [
  | inl first ↦ rw (first, insert_by_order) (λ m. m, λ m. m)
  | inr later ↦
      let (into, out) = insert_by_order-Member b cs x in
      rw (later, insert_by_order)
        (
          λ m. elim m [
            | inl e ↦ inr (inl e)
            | inr rest ↦ elim (into rest) [ inl e ↦ inl e | inr old ↦ inr (inr old) ]
          ],
          λ m. elim m [
            | inl e ↦ inr (out (inl e))
            | inr there ↦ elim there [ inl e ↦ inl e | inr old ↦ inr (out (inr old)) ]
          ],
        )
]

insert_by_order-IsSorted :
    (b : Binding) (cs : List Binding) → IsSorted cs → IsSorted (insert_by_order b cs)
unfolding insert_by_order
insert_by_order-IsSorted b [] s = (tt, tt)
insert_by_order-IsSorted b (c ∷ cs) (below, s) = elim (Bool-cases (order_leb b.order c.order)) [
  | inl first ↦
      let le = order_leb-KeyLe b.order c.order first in
      rw (first, insert_by_order)
        ((le, All-map _ _ cs (λ d. KeyLe-trans b.order c.order d.order le) below), (below, s))
  | inr later ↦
      rw (later, insert_by_order)
        (
          Member-All _ (insert_by_order b cs) (λ d m. elim ((insert_by_order-Member b cs d).0 m) [
            | inl e ↦ rw e (order_leb-false b.order c.order later)
            | inr old ↦ All-Member _ cs d below old
          ]),
          insert_by_order-IsSorted b cs s,
        )
]

pub sort_by_order-IsSorted : (bs : List Binding) → IsSorted (sort_by_order bs)
unfolding sort_by_order
sort_by_order-IsSorted [] = tt
sort_by_order-IsSorted (b ∷ bs) =
    insert_by_order-IsSorted b (sort_by_order bs) (sort_by_order-IsSorted bs)

-- Sorting keeps exactly the bindings.
pub sort_by_order-Member :
    (bs : List Binding) (x : Binding) → Member x (sort_by_order bs) ↔ Member x bs
unfolding sort_by_order
sort_by_order-Member [] x = (λ m. m, λ m. m)
sort_by_order-Member (b ∷ bs) x =
    let (into, out) = insert_by_order-Member b (sort_by_order bs) x in
    let (in_rest, out_rest) = sort_by_order-Member bs x in
    (
      λ m. elim (into m) [ inl e ↦ inl e | inr r ↦ inr (in_rest r) ],
      λ m. elim m [ inl e ↦ out (inl e) | inr r ↦ out (inr (out_rest r)) ],
    )
