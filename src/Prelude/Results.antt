-- ===== src/Prelude/Results.antt =====
-- Rust's `Result`, with `?` as the bind of a `do` block, and the loops that stop at an error.
use Prim.Native.Nat.{ℕ, suc}
use mathlib.Core.Path.{◌≡◌, refl, ◌∙◌}
use mathlib.Core.Logic.{◌⊎◌, inl, inr}
use mathlib.Core.List.{List, [], ◌∷◌}
use rootcause.Prelude.Lists.{All}

pub data Result {ℓ κ} (E : Type ℓ) (A : Type κ) : Type (ℓ ⊔ κ) where
  ok : A → Result E A
  err : E → Result E A

module _ {ℓ κ μ} {E : Type ℓ} {A : Type κ} {B : Type μ} where
  infixl 5 ◌>>=◌ ◌>>◌
  abbrev pub ◌>>=◌ : Result E A → (A → Result E B) → Result E B
  ok value >>= next = next value
  err failure >>= next = err failure

  abbrev pub ◌>>◌ : Result E A → Result E B → Result E B
  first >> next = first >>= λ value. next

module _ {ℓ κ} {E : Type ℓ} {A : Type κ} where
  -- `for x in xs { f(x)?; }`
  abbrev pub try_for_each : (A → Result E (Unit {0})) → List A → Result E (Unit {0})
  try_for_each f [] = ok tt
  try_for_each f (x ∷ xs) = f x >> try_for_each f xs

  -- `for (index, x) in xs.iter().enumerate() { f(index, x)?; }`
  abbrev pub try_enumerate : (ℕ → A → Result E (Unit {0})) → ℕ → List A → Result E (Unit {0})
  try_enumerate f i [] = ok tt
  try_enumerate f i (x ∷ xs) = f i x >> try_enumerate f (suc i) xs

pub Result-cases {ℓ κ} :
    {E : Type ℓ} {A : Type κ} (r : Result E A) → ((a : A) × (r ≡ ok a)) ⊎ ((e : E) × (r ≡ err e))
Result-cases (ok a) = inl (a, refl)
Result-cases (err e) = inr (e, refl)

pub ok-injective {ℓ κ} :
    {E : Type ℓ} {A : Type κ} {a b : A} → Path (Result E A) (ok a) (ok b) → a ≡ b
ok-injective h = cc

-- A chain that fails has failed at its first step or after it.
pub >>=-eq-err {ℓ κ μ} :
    {E : Type ℓ} {A : Type κ} {B : Type μ} (first : Result E A) (next : A → Result E B)
    (failure : E)
    → (first >>= next) ≡ err failure
    → (first ≡ err failure) ⊎ ((value : A) × (first ≡ ok value) × (next value ≡ err failure))
>>=-eq-err (ok value) next failure h = inr (value, refl, h)
>>=-eq-err (err e) next failure h = inl (cc)

-- A chain that succeeds has succeeded at its first step.
module _ {ℓ κ μ} {E : Type ℓ} {A : Type κ} {B : Type μ} {result : B} where
  pub >>-eq-ok :
      (first : Result E A) (next : Result E B)
      → (first >> next) ≡ ok result
      → (value : A) × (first ≡ ok value) × (next ≡ ok result)
  >>-eq-ok (ok value) next h = (value, refl, h)
  >>-eq-ok (err failure) next h = cc

  pub >>=-eq-ok :
      (first : Result E A) (next : A → Result E B)
      → (first >>= next) ≡ ok result
      → (value : A) × (first ≡ ok value) × (next value ≡ ok result)
  >>=-eq-ok (ok value) next h = (value, refl, h)
  >>=-eq-ok (err failure) next h = cc

pub >>-ok {ℓ κ μ} :
    {E : Type ℓ} {A : Type κ} {B : Type μ} (m : Result E A) (k : Result E B) {a : A}
    → m ≡ ok a
    → (m >> k) ≡ k
>>-ok m k h = rw h

-- Both loops succeed exactly if every round does, as `P` says of a round.
module _ {ℓ κ μ} {E : Type ℓ} {A : Type κ} (P : A → Type μ) where
  pub try_for_each_sound :
      (f : A → Result E (Unit {0})) (xs : List A)
      → ((x : A) → f x ≡ ok tt → P x)
      → try_for_each f xs ≡ ok tt
      → All P xs
  try_for_each_sound f [] s h = tt
  try_for_each_sound f (x ∷ xs) s h =
      let (_, first, rest) = >>-eq-ok (f x) (try_for_each f xs) h in
      (s x first, try_for_each_sound f xs s rest)

  pub try_for_each_complete :
      (f : A → Result E (Unit {0})) (xs : List A)
      → ((x : A) → P x → f x ≡ ok tt)
      → All P xs
      → try_for_each f xs ≡ ok tt
  try_for_each_complete f [] c h = refl
  try_for_each_complete f (x ∷ xs) c h =
      >>-ok (f x) (try_for_each f xs) (c x h.0) ∙ try_for_each_complete f xs c h.1

  pub try_enumerate_sound :
      (f : ℕ → A → Result E (Unit {0})) (i : ℕ) (xs : List A)
      → ((i : ℕ) (x : A) → f i x ≡ ok tt → P x)
      → try_enumerate f i xs ≡ ok tt
      → All P xs
  try_enumerate_sound f i [] s h = tt
  try_enumerate_sound f i (x ∷ xs) s h =
      let (_, first, rest) = >>-eq-ok (f i x) (try_enumerate f (suc i) xs) h in
      (s i x first, try_enumerate_sound f (suc i) xs s rest)

  pub try_enumerate_complete :
      (f : ℕ → A → Result E (Unit {0})) (i : ℕ) (xs : List A)
      → ((i : ℕ) (x : A) → P x → f i x ≡ ok tt)
      → All P xs
      → try_enumerate f i xs ≡ ok tt
  try_enumerate_complete f i [] c h = refl
  try_enumerate_complete f i (x ∷ xs) c h =
      >>-ok (f i x) (try_enumerate f (suc i) xs) (c i x h.0)
      ∙ try_enumerate_complete f (suc i) xs c h.1
