-- ===== src/Dsl/Validate/Clean.antt =====
-- Lists of diagnostics with no error among them, and what the tests of validate.rs say then.
use rootcause.Prelude.{
  ◌≡◌, refl, sym, ◌∙◌, ◌↔◌, Bool, true, false, ◌||◌, List, [], ◌∷◌, ◌++◌, String, string_Eq,
  contains, contains→Member, Member→contains, Member, arith, if◌then◌else◌,
}
use rootcause.Dsl.Ast.{Span}
use rootcause.Dsl.Diagnostics.{Diagnostics, Problem, error_at, has_errors}

abbrev pub IsClean : Diagnostics → Type 0
IsClean diags = has_errors diags ≡ false

-- Each name is not among those before it.
abbrev pub NoRepeat : List String → List String → Type 0
NoRepeat seen [] = Unit
NoRepeat seen (x ∷ xs) = (contains seen x ≡ false) × NoRepeat (x ∷ seen) xs

pub ×_iff : {A B C D : Type 0} → (A ↔ B) → (C ↔ D) → (A × C) ↔ (B × D)
×_iff (f, g) (h, k) = (λ (a, c). (f a, h c), λ (b, d). (g b, k d))

pub ↔_trans : {A B C : Type 0} → (A ↔ B) → (B ↔ C) → A ↔ C
↔_trans (f, g) (h, k) = (λ a. h (f a), λ c. g (k c))

||-false_iff : (a b : Bool) → ((a || b) ≡ false) ↔ ((a ≡ false) × (b ≡ false))
||-false_iff a b = ground arith

has_errors-append : (xs ys : Diagnostics) → has_errors (xs ++ ys) ≡ (has_errors xs || has_errors ys)
unfolding has_errors
has_errors-append [] ys = refl
has_errors-append (x ∷ xs) ys = let rest = has_errors-append xs ys in ground arith

pub IsClean-append_iff : (xs ys : Diagnostics) → IsClean (xs ++ ys) ↔ (IsClean xs × IsClean ys)
IsClean-append_iff xs ys =
    let (split, join) = ||-false_iff (has_errors xs) (has_errors ys) in
    (λ h. split (sym (has_errors-append xs ys) ∙ h), λ h. has_errors-append xs ys ∙ join h)

-- Both parts of a report, each with its meaning.
pub IsClean-both :
    {A B : Type 0} (xs ys : Diagnostics)
    → (IsClean xs ↔ A)
    → (IsClean ys ↔ B)
    → IsClean (xs ++ ys) ↔ (A × B)
IsClean-both xs ys h k = ↔_trans (IsClean-append_iff xs ys) (×_iff h k)

pub IsClean-nil : IsClean []
unfolding has_errors
IsClean-nil = refl

pub error-IsClean :
    (span : Span) (problem : Problem) (ds : Diagnostics) → ¬ IsClean (error_at span problem ∷ ds)
unfolding has_errors
error-IsClean span problem ds h = cc

-- An error unless a test passes, and an error if it does.
pub unless_iff :
    (b : Bool) (span : Span) (problem : Problem)
    → IsClean (if b then [] else error_at span problem ∷ []) ↔ (b ≡ true)
unless_iff true span problem = (λ h. refl, λ h. IsClean-nil)
unless_iff false span problem = (λ h. absurd (error-IsClean span problem [] h), λ h. absurd (cc))

pub when_iff :
    (b : Bool) (span : Span) (problem : Problem)
    → IsClean (if b then error_at span problem ∷ [] else []) ↔ (b ≡ false)
when_iff true span problem = (λ h. absurd (error-IsClean span problem [] h), λ h. absurd (cc))
when_iff false span problem = (λ h. refl, λ h. IsClean-nil)

pub contains_iff : (xs : List String) (x : String) → (contains xs x ≡ true) ↔ Member x xs
contains_iff xs x = (contains→Member xs x, Member→contains xs x)
