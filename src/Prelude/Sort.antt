-- ===== src/Prelude/Sort.antt =====
-- `sort_by_key` at a key that is a number: a stable insertion sort.
use Prim.Native.Nat.{ℕ}
use mathlib.Core.Path.{◌≡◌}
use mathlib.Core.Logic.{◌↔◌, ◌⊎◌, inl, inr}
use mathlib.Core.List.{List, [], ◌∷◌}
use rootcause.Prelude.Tests.{leb, if◌then◌else◌, Bool-cases}
use rootcause.Prelude.Lists.{Member}

module _ {A : Type 0} (key : A → ℕ) where
  abbrev pub insert_by_key : A → List A → List A
  insert_by_key a [] = a ∷ []
  insert_by_key a (x ∷ xs) = if leb (key a) (key x) then a ∷ x ∷ xs else x ∷ insert_by_key a xs

  abbrev pub sort_by_key : List A → List A
  sort_by_key [] = []
  sort_by_key (x ∷ xs) = insert_by_key x (sort_by_key xs)

  insert_by_key-Member :
      (a : A) (xs : List A) (y : A) → Member y (insert_by_key a xs) ↔ ((y ≡ a) ⊎ Member y xs)
  insert_by_key-Member a [] y = (λ m. m, λ m. m)
  insert_by_key-Member a (x ∷ xs) y = elim (Bool-cases (leb (key a) (key x))) [
    | inl first ↦ rw first (λ m. m, λ m. m)
    | inr later ↦
        let (into, out) = insert_by_key-Member a xs y in
        rw later (
          λ m. elim m [
            | inl e ↦ inr (inl e)
            | inr rest ↦ elim (into rest) [ inl e ↦ inl e | inr old ↦ inr (inr old) ]
          ],
          λ m. elim m [
            | inl e ↦ inr (out (inl e))
            | inr there ↦ elim there [ inl e ↦ inl e | inr old ↦ inr (out (inr old)) ]
          ],
        )
  ]

  -- Sorting keeps exactly the elements.
  pub sort_by_key-Member : (xs : List A) (y : A) → Member y (sort_by_key xs) ↔ Member y xs
  sort_by_key-Member [] y = (λ m. m, λ m. m)
  sort_by_key-Member (x ∷ xs) y =
      let (into, out) = insert_by_key-Member x (sort_by_key xs) y in
      let (in_rest, out_rest) = sort_by_key-Member xs y in
      (
        λ m. elim (into m) [ inl e ↦ inl e | inr r ↦ inr (in_rest r) ],
        λ m. elim m [ inl e ↦ out (inl e) | inr r ↦ out (inr (out_rest r)) ],
      )
