-- ===== src/Prelude/Equality.antt =====
-- Decidable equality as an interface: Rust's `PartialEq` and `Eq`.
use Prim.Native.Nat.{ℕ}
use Prim.Native.String.{String}
use mathlib.Core.Path.{◌≡◌, refl, sym, ap, ◌∙◌}
use mathlib.Core.Logic.{◌↔◌, ◌⊎◌, inl, inr}
use mathlib.Core.Bool.{Bool, true, false, ◌&&◌}
use mathlib.Core.List.{List, [], ◌∷◌}
use mathlib.Core.Option.{Option, none, some}
use native.Mathlib.Omega.{arith}
use text.Mathlib.Text.{◌==◌ as text_eq}
use text.Mathlib.TextEquality.{eq_iff as text_eq_iff}
use rootcause.Prelude.Tests.{nat_eq, nat_eq_iff, &&_iff, Bool-cases, if◌then◌else◌}
use rootcause.Prelude.Lists.{Member, any}

-- The test, and that it decides equality.
pub record Eq {κ} (T : Type κ) : Type κ where
  pub eqb : T → T → Bool
  pub eqb_iff : (x y : T) → (eqb x y ≡ true) ↔ (x ≡ y)

module _ {κ} {T : Type κ} ⦃test : Eq T⦄ where
  infix 50 ◌==◌
  abbrev pub ◌==◌ : T → T → Bool
  x == y = test.eqb x y

instance abbrev pub nat_Eq : Eq ℕ
nat_Eq = record { eqb = nat_eq; eqb_iff = nat_eq_iff }

instance abbrev pub string_Eq : Eq String
string_Eq = record { eqb = text_eq; eqb_iff = text_eq_iff }

module _ {ℓ} {A : Type ℓ} ⦃e : Eq A⦄ where
  abbrev pub list_eq : List A → List A → Bool
  list_eq [] [] = true
  list_eq (x ∷ xs) (y ∷ ys) = (x == y) && list_eq xs ys
  list_eq _ _ = false

  list_eq_sound : (xs ys : List A) → list_eq xs ys ≡ true → xs ≡ ys
  list_eq_sound [] [] h = refl
  list_eq_sound [] (y ∷ ys) h = absurd (cc)
  list_eq_sound (x ∷ xs) [] h = absurd (cc)
  list_eq_sound (x ∷ xs) (y ∷ ys) h =
      let both = (&&_iff (x == y) (list_eq xs ys)).0 h in
      cc ((e.eqb_iff x y).0 both.0, list_eq_sound xs ys both.1)

  list_eq_refl : (xs : List A) → list_eq xs xs ≡ true
  list_eq_refl [] = refl
  list_eq_refl (x ∷ xs) =
      (&&_iff (x == x) (list_eq xs xs)).1 ((e.eqb_iff x x).1 refl, list_eq_refl xs)

  pub list_eq_iff : (xs ys : List A) → (list_eq xs ys ≡ true) ↔ (xs ≡ ys)
  list_eq_iff xs ys = (list_eq_sound xs ys, λ p. rw (← p) (list_eq_refl xs))

  abbrev pub option_eq : Option A → Option A → Bool
  option_eq none none = true
  option_eq (some a) (some b) = a == b
  option_eq _ _ = false

  pub option_eq_iff : (a b : Option A) → (option_eq a b ≡ true) ↔ (a ≡ b)
  option_eq_iff none none = (λ _. refl, λ _. refl)
  option_eq_iff none (some b) = (λ h. cc, λ h. cc)
  option_eq_iff (some a) none = (λ h. cc, λ h. cc)
  option_eq_iff (some a) (some b) = (λ h. cc ((e.eqb_iff a b).0 h), λ h. (e.eqb_iff a b).1 (cc))

instance abbrev pub list_Eq {ℓ} : {A : Type ℓ} ⦃e : Eq A⦄ → Eq (List A)
list_Eq = record { eqb = list_eq; eqb_iff = list_eq_iff }

instance abbrev pub option_Eq {ℓ} : {A : Type ℓ} ⦃e : Eq A⦄ → Eq (Option A)
option_Eq = record { eqb = option_eq; eqb_iff = option_eq_iff }

-- A `HashSet` as a list: `contains`, and `insert`, which adds a value once.
module _ {A : Type 0} ⦃e : Eq A⦄ where
  abbrev pub contains : List A → A → Bool
  contains xs a = any (λ x. x == a) xs

  abbrev pub insert : A → List A → List A
  insert a xs = if contains xs a then xs else a ∷ xs

  pub contains→Member : (xs : List A) (a : A) → contains xs a ≡ true → Member a xs
  contains→Member [] a h = absurd (cc)
  contains→Member (x ∷ xs) a h = elim (Bool-cases (x == a)) [
    | inl same ↦ inl (sym ((e.eqb_iff x a).0 same))
    | inr other ↦ inr (contains→Member xs a (ground arith))
  ]

  pub Member→contains : (xs : List A) (a : A) → Member a xs → contains xs a ≡ true
  Member→contains [] a h = absurd h
  Member→contains (x ∷ xs) a (inl p) = let same = (e.eqb_iff x a).1 (sym p) in ground arith
  Member→contains (x ∷ xs) a (inr m) = let there = Member→contains xs a m in ground arith

  pub Member-insert_self : (a : A) (xs : List A) → Member a (insert a xs)
  Member-insert_self a xs = elim (Bool-cases (contains xs a)) [
    | inl old ↦ rw old (contains→Member xs a old)
    | inr new ↦ rw new (inl refl)
  ]

  pub Member-insert_old : (a b : A) (xs : List A) → Member b xs → Member b (insert a xs)
  Member-insert_old a b xs m = elim (Bool-cases (contains xs a)) [
    | inl old ↦ rw old m
    | inr new ↦ rw new (inr m)
  ]

  pub Member-insert_inv : (a b : A) (xs : List A) → Member b (insert a xs) → (b ≡ a) ⊎ Member b xs
  Member-insert_inv a b xs m = elim (Bool-cases (contains xs a)) [
    | inl old ↦ inr (rw old at m)
    | inr new ↦ rw new at m
  ]

-- A `HashMap` as an association list, the newest entry first.
module _ {ℓ} {K V : Type ℓ} ⦃e : Eq K⦄ where
  abbrev pub lookup : K → List (K × V) → Option V
  lookup key [] = none
  lookup key (entry ∷ entries) = if entry.0 == key then some entry.1 else lookup key entries

abbrev pub bool_eq : Bool → Bool → Bool
bool_eq true true = true
bool_eq false false = true
bool_eq _ _ = false

pub bool_eq_iff : (a b : Bool) → (bool_eq a b ≡ true) ↔ (a ≡ b)
bool_eq_iff a b = ground arith

instance abbrev pub bool_Eq : Eq Bool
bool_Eq = record { eqb = bool_eq; eqb_iff = bool_eq_iff }

module _ {ℓ} {K V : Type ℓ} ⦃e : Eq K⦄ where
  -- `HashMap::insert` replaces the value of a key that is there.
  abbrev pub map_insert : K → V → List (K × V) → List (K × V)
  map_insert key value [] = (key, value) ∷ []
  map_insert key value (entry ∷ entries) =
      if entry.0 == key then (key, value) ∷ entries else entry ∷ map_insert key value entries

  abbrev pub contains_key : List (K × V) → K → Bool
  contains_key m k = elim (lookup k m) [ none ↦ false | some v ↦ true ]

module _ {ℓ} {K V : Type ℓ} ⦃e : Eq K⦄ where
  pub lookup-map_insert_self :
      (k : K) (v : V) (m : List (K × V)) → lookup k (map_insert k v m) ≡ some v
  lookup-map_insert_self k v [] = rw ((e.eqb_iff k k).1 refl)
  lookup-map_insert_self k v ((j, w) ∷ m) = elim (Bool-cases (j == k)) [
    | inl same ↦ rw (same, (e.eqb_iff k k).1 refl)
    | inr other ↦ rw (other, other) (lookup-map_insert_self k v m)
  ]

  pub lookup-map_insert_ne :
      (k j : K) (v : V) (m : List (K × V))
      → (k == j) ≡ false
      → lookup j (map_insert k v m) ≡ lookup j m
  lookup-map_insert_ne k j v [] h = rw h
  lookup-map_insert_ne k j v ((i, w) ∷ m) h = elim (Bool-cases (i == k)) [
    | inl same ↦ let same_key : i ≡ k = (e.eqb_iff i k).0 same in rw (same, h) (rw same_key (rw h))
    | inr other ↦ rw other (ap (λ r. if i == j then some w else r) (lookup-map_insert_ne k j v m h))
  ]

  -- A map's entry after an insertion is the new one, at its key, or an old one.
  pub lookup-map_insert_inv :
      (k j : K) (v u : V) (m : List (K × V))
      → lookup j (map_insert k v m) ≡ some u
      → ((k ≡ j) × (v ≡ u)) ⊎ (lookup j m ≡ some u)
  lookup-map_insert_inv k j v u m h = elim (Bool-cases (k == j)) [
    | inl same ↦
        let here = (e.eqb_iff k j).0 same in
        let found = lookup-map_insert_self k v m in
        let again = ap (λ i. lookup i (map_insert k v m)) here in inl (here, cc)
    | inr other ↦ inr (sym (lookup-map_insert_ne k j v m other) ∙ h)
  ]
