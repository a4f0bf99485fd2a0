-- ===== src/Prelude/Lists.antt =====
-- Lists measured and indexed by native numbers, and predicates over their elements.
use Prim.Native.Nat.{ℕ, zero, suc, ◌+◌, ◌<◌}
use mathlib.Core.Path.{◌≡◌, refl, ap}
use mathlib.Core.Logic.{◌⊎◌, inl, inr}
use mathlib.Core.Bool.{Bool, true, false, ◌&&◌, ◌||◌}
use mathlib.Core.List.{List, [], ◌∷◌, ◌++◌, map}
use mathlib.Core.Option.{Option, none, some}
use native.Mathlib.Omega.{arith}
use rootcause.Prelude.Tests.{if◌then◌else◌, Bool-cases}

module _ {ℓ} {A : Type ℓ} where
  abbrev pub length : List A → ℕ
  length [] = 0
  length (x ∷ xs) = suc (length xs)

  abbrev pub get_elem? : List A → ℕ → Option A
  get_elem? [] i = none
  get_elem? (x ∷ xs) zero = some x
  get_elem? (x ∷ xs) (suc i) = get_elem? xs i

  abbrev pub head? : List A → Option A
  head? [] = none
  head? (x ∷ xs) = some x

  -- A write out of bounds changes nothing.
  abbrev pub set : List A → ℕ → A → List A
  set [] i v = []
  set (x ∷ xs) zero v = v ∷ xs
  set (x ∷ xs) (suc i) v = x ∷ set xs i v

  abbrev pub is_empty : List A → Bool
  is_empty [] = true
  is_empty (x ∷ xs) = false

  -- Rust's `iter().filter(..)`, `any`, `all` and `find`.
  abbrev pub filter : (A → Bool) → List A → List A
  filter p [] = []
  filter p (x ∷ xs) = let rest = filter p xs in if p x then x ∷ rest else rest

  abbrev pub any : (A → Bool) → List A → Bool
  any p [] = false
  any p (x ∷ xs) = p x || any p xs

  abbrev pub all : (A → Bool) → List A → Bool
  all p [] = true
  all p (x ∷ xs) = p x && all p xs

  abbrev pub find : (A → Bool) → List A → Option A
  find p [] = none
  find p (x ∷ xs) = let rest = find p xs in if p x then some x else rest

  pub length-append : (xs ys : List A) → length (xs ++ ys) ≡ length xs + length ys
  length-append [] ys = omega arith
  length-append (x ∷ xs) ys = omega (arith, length-append xs ys)

  pub lt-length_of_get_elem? :
      (xs : List A) (i : ℕ) (a : A) → get_elem? xs i ≡ some a → i < length xs
  lt-length_of_get_elem? [] i a h = absurd (cc)
  lt-length_of_get_elem? (x ∷ xs) zero a h = omega arith
  lt-length_of_get_elem? (x ∷ xs) (suc i) a h = omega (arith, lt-length_of_get_elem? xs i a h)

  pub get_elem?_of_lt : (xs : List A) (i : ℕ) → i < length xs → (a : A) × (get_elem? xs i ≡ some a)
  get_elem?_of_lt [] i h = absurd (omega arith)
  get_elem?_of_lt (x ∷ xs) zero h = (x, refl)
  get_elem?_of_lt (x ∷ xs) (suc i) h = get_elem?_of_lt xs i (omega arith)

  pub get_elem?-append_left :
      (xs ys : List A) (i : ℕ) (a : A) → get_elem? xs i ≡ some a → get_elem? (xs ++ ys) i ≡ some a
  get_elem?-append_left [] ys i a h = absurd (cc)
  get_elem?-append_left (x ∷ xs) ys zero a h = h
  get_elem?-append_left (x ∷ xs) ys (suc i) a h = get_elem?-append_left xs ys i a h

  pub get_elem?-append_length :
      (xs ys : List A) (y : A) → get_elem? (xs ++ (y ∷ ys)) (length xs) ≡ some y
  get_elem?-append_length [] ys y = refl
  get_elem?-append_length (x ∷ xs) ys y = get_elem?-append_length xs ys y

  pub length_snoc : (xs : List A) (y : A) → length (xs ++ y ∷ []) ≡ suc (length xs)
  length_snoc [] y = refl
  length_snoc (x ∷ xs) y = omega (arith, length_snoc xs y)

  pub snoc-append : (xs : List A) (y : A) (ys : List A) → (xs ++ y ∷ []) ++ ys ≡ xs ++ y ∷ ys
  snoc-append [] y ys = refl
  snoc-append (x ∷ xs) y ys = ap (λ (zs : List A). x ∷ zs) (snoc-append xs y ys)

  pub append-nil : (xs : List A) → xs ++ [] ≡ xs
  append-nil [] = refl
  append-nil (x ∷ xs) = ap (λ (zs : List A). x ∷ zs) (append-nil xs)

  -- An element of a list with one more is an old one, or the new one.
  pub get_elem?-snoc :
      (xs : List A) (y : A) (i : ℕ) (a : A)
      → get_elem? (xs ++ y ∷ []) i ≡ some a
      → (get_elem? xs i ≡ some a) ⊎ ((i ≡ length xs) × (y ≡ a))
  get_elem?-snoc [] y zero a h = inr (refl, cc)
  get_elem?-snoc [] y (suc i) a h = absurd (cc)
  get_elem?-snoc (x ∷ xs) y zero a h = inl h
  get_elem?-snoc (x ∷ xs) y (suc i) a h = elim (get_elem?-snoc xs y i a h) [
    | inl old ↦ inl old
    | inr (last, same) ↦ inr (omega arith, same)
  ]

-- Every element, and some element.
abbrev pub All {ℓ κ} : {A : Type ℓ} → (A → Type κ) → List A → Type κ
All P [] = Unit
All P (x ∷ xs) = P x × All P xs

abbrev pub Member : {A : Type 0} → A → List A → Type 0
Member a [] = ⊥
Member a (x ∷ xs) = (a ≡ x) ⊎ Member a xs

module _ {A : Type 0} where
  pub Member-snoc : (xs : List A) (y a : A) → Member a (xs ++ y ∷ []) → Member a xs ⊎ (a ≡ y)
  Member-snoc [] y a (inl p) = inr p
  Member-snoc [] y a (inr m) = elim m [ ]
  Member-snoc (x ∷ xs) y a (inl p) = inl (inl p)
  Member-snoc (x ∷ xs) y a (inr m) = elim (Member-snoc xs y a m) [
    | inl old ↦ inl (inr old)
    | inr new ↦ inr new
  ]

  pub snoc-Member : (xs : List A) (y a : A) → Member a xs ⊎ (a ≡ y) → Member a (xs ++ y ∷ [])
  snoc-Member [] y a (inl m) = absurd m
  snoc-Member [] y a (inr p) = inl p
  snoc-Member (x ∷ xs) y a (inl (inl p)) = inl p
  snoc-Member (x ∷ xs) y a (inl (inr m)) = inr (snoc-Member xs y a (inl m))
  snoc-Member (x ∷ xs) y a (inr p) = inr (snoc-Member xs y a (inr p))

module _ {κ} {A : Type 0} (P : A → Type κ) where
  pub All-get_elem? : (xs : List A) (i : ℕ) (a : A) → All P xs → get_elem? xs i ≡ some a → P a
  All-get_elem? [] i a ps h = absurd (cc)
  All-get_elem? (x ∷ xs) zero a ps h = let same : x ≡ a = cc in rw (← same) ps.0
  All-get_elem? (x ∷ xs) (suc i) a ps h = All-get_elem? xs i a ps.1 h

  pub All-Member : (xs : List A) (a : A) → All P xs → Member a xs → P a
  All-Member [] a ps m = absurd m
  All-Member (x ∷ xs) a ps (inl e) = rw e ps.0
  All-Member (x ∷ xs) a ps (inr m) = All-Member xs a ps.1 m

  pub Member-All : (xs : List A) → ((a : A) → Member a xs → P a) → All P xs
  Member-All [] h = tt
  Member-All (x ∷ xs) h = (h x (inl refl), Member-All xs (λ a m. h a (inr m)))

pub All-append {κ} :
    {A : Type 0} (P : A → Type κ) (xs ys : List A) → All P xs → All P ys → All P (xs ++ ys)
All-append P [] ys ps qs = qs
All-append P (x ∷ xs) ys ps qs = (ps.0, All-append P xs ys ps.1 qs)

pub All-map {κ μ} :
    {A : Type 0} (P : A → Type κ) (Q : A → Type μ) (xs : List A)
    → ((x : A) → P x → Q x)
    → All P xs
    → All Q xs
All-map P Q [] f ps = tt
All-map P Q (x ∷ xs) f ps = (f x ps.0, All-map P Q xs f ps.1)

pub All-zip {κ μ ν} :
    {A : Type 0} (P : A → Type κ) (Q : A → Type μ) (R : A → Type ν) (xs : List A)
    → ((x : A) → P x → Q x → R x)
    → All P xs
    → All Q xs
    → All R xs
All-zip P Q R [] f ps qs = tt
All-zip P Q R (x ∷ xs) f ps qs = (f x ps.0 qs.0, All-zip P Q R xs f ps.1 qs.1)

module _ {A : Type 0} where
  pub Member-filter :
      (p : A → Bool) (xs : List A) (a : A) → Member a (filter p xs) → Member a xs × (p a ≡ true)
  Member-filter p [] a m = absurd m
  Member-filter p (x ∷ xs) a m = elim (Bool-cases (p x)) [
    | inl kept ↦ elim (rw kept at m) [
      | inl e ↦ (inl e, rw e kept)
      | inr rest ↦ let (old, holds) = Member-filter p xs a rest in (inr old, holds)
    ]
    | inr dropped ↦ let (old, holds) = Member-filter p xs a (rw dropped at m) in (inr old, holds)
  ]

  pub filter-Member :
      (p : A → Bool) (xs : List A) (a : A) → Member a xs → p a ≡ true → Member a (filter p xs)
  filter-Member p [] a m h = m
  filter-Member p (x ∷ xs) a (inl e) h = rw (← e, h) (inl refl)
  filter-Member p (x ∷ xs) a (inr m) h = elim (Bool-cases (p x)) [
    | inl kept ↦ rw kept (inr (filter-Member p xs a m h))
    | inr dropped ↦ rw dropped (filter-Member p xs a m h)
  ]

  pub Member-get_elem? : (xs : List A) (a : A) → Member a xs → (i : ℕ) × (get_elem? xs i ≡ some a)
  Member-get_elem? [] a m = absurd m
  Member-get_elem? (x ∷ xs) a (inl e) = (0, cc)
  Member-get_elem? (x ∷ xs) a (inr m) = let (i, at) = Member-get_elem? xs a m in (suc i, at)

  pub Member-map :
      {B : Type 0} (f : A → B) (xs : List A) (b : B)
      → Member b (map f xs)
      → (a : A) × Member a xs × (b ≡ f a)
  Member-map f [] b m = absurd m
  Member-map f (x ∷ xs) b (inl e) = (x, inl refl, e)
  Member-map f (x ∷ xs) b (inr m) = let (a, old, e) = Member-map f xs b m in (a, inr old, e)
