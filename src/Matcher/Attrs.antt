-- ===== src/Matcher/Attrs.antt =====
-- crates/matcher/src/predicate.rs: the typed readers of a predicate's attributes, and the tests
-- that compare an amount with a bound.
use rootcause.Prelude.{
  ℕ, ◌-◌, ◌^◌, Bool, true, false, ◌||◌, ◌&&◌, Option, none, some, List, String, ltb, string_Eq,
  if◌then◌else◌,
}
use rootcause.Prelude.Int.{ℤ, pos, leb_int}
use rootcause.Prelude.Text.{as_bytes}
use rootcause.Dsl.Ir.{
  AttrValue, ident_value, str_value, int_value, bool_value, CompiledPredicate, attr,
}

as_ident : Option AttrValue → Option String
as_ident (some (ident_value s)) = some s
as_ident _ = none

as_bool : Option AttrValue → Option Bool
as_bool (some (bool_value b)) = some b
as_bool _ = none

as_int : Option AttrValue → Option ℤ
as_int (some (int_value i)) = some i
as_int _ = none

as_str : Option AttrValue → Option (List ℕ)
as_str (some (str_value s)) = some (as_bytes s)
as_str _ = none

unfoldable pub ident : CompiledPredicate → String → Option String
unfolding as_ident attr
ident p name = as_ident (attr p name)

unfoldable pub bool_attr : CompiledPredicate → String → Option Bool
unfolding as_bool attr
bool_attr p name = as_bool (attr p name)

unfoldable pub int_attr : CompiledPredicate → String → Option ℤ
unfolding as_int attr
int_attr p name = as_int (attr p name)

-- The text of a string attribute as its bytes, which is how every reader takes it.
unfoldable pub str_attr : CompiledPredicate → String → Option (List ℕ)
unfolding as_str attr
str_attr p name = as_str (attr p name)

unfoldable pub has_attr : CompiledPredicate → String → Bool
unfolding attr
has_attr p name = elim (attr p name) [ none ↦ false | some v ↦ true ]

-- `want.map_or(true, test)`
abbrev pub accepts {ℓ} : {A : Type ℓ} → Option A → (A → Bool) → Bool
accepts none test = true
accepts (some a) test = test a

-- `i128::try_from(v).unwrap_or(i128::MAX)` of a u128.
abbrev pub saturate_i128 : ℕ → ℕ
saturate_i128 v = if ltb v (2 ^ 127) then v else 2 ^ 127 - 1

-- `min <= 0 || amount >= min`
abbrev pub at_least : ℕ → ℤ → Bool
at_least amount min = leb_int min (pos 0) || leb_int min (pos amount)

-- `max >= 0 && amount <= max`
abbrev pub at_most : ℕ → ℤ → Bool
at_most amount max = leb_int (pos 0) max && leb_int (pos amount) max

-- A text attribute that does not parse matches nothing: `None => true, Some(None) => false,
-- Some(Some(want)) => test`.
abbrev pub accepts_parsed {ℓ} : {A : Type ℓ} → Option (Option A) → (A → Bool) → Bool
accepts_parsed none test = true
accepts_parsed (some none) test = false
accepts_parsed (some (some want)) test = test want
