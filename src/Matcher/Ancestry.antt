-- ===== src/Matcher/Ancestry.antt =====
-- crates/matcher/src/predicate.rs: the kinds of a call and of its ancestors.
pub mod Chain
use rootcause.Prelude.{
  ℕ, zero, suc, Bool, true, false, ◌||◌, Option, none, some, String, ◌==◌, string_Eq, length,
  if◌then◌else◌,
}
use rootcause.Facts.Types.{
  CallId, Call, CallKind, static_call, delegate_call, call_code, create, create2, selfdestruct,
}
use rootcause.Facts.Arena.{FactArena, call}
use rootcause.Facts.Trace.{Trace}

-- `call` is also the accessor of an arena: the constructor is written behind its type.
unfoldable pub call_kind_matches : CallKind → String → Bool
call_kind_matches CallKind.call ident = ident == "External"
call_kind_matches static_call ident = ident == "StaticCall"
call_kind_matches delegate_call ident = ident == "Delegate"
call_kind_matches call_code ident = ident == "Delegate"
call_kind_matches create ident = ident == "Create"
call_kind_matches create2 ident = ident == "Create"
call_kind_matches selfdestruct ident = ident == "SelfDestruct"

abbrev pub parent_id : Option Call → Option CallId
parent_id none = none
parent_id (some c) = c.parent

-- The `while let` loop on fuel; `none` means that the fuel ran out.
pub ancestor_loop : ℕ → FactArena → String → Option CallId → Option Bool
unfolding call call_kind_matches
ancestor_loop zero a ident current = none
ancestor_loop (suc fuel) a ident none = some false
ancestor_loop (suc fuel) a ident (some id) = elim (call a id) [
  | none ↦ some false
  | some c ↦
      if call_kind_matches c.kind ident then some true else ancestor_loop fuel a ident c.parent
]

-- The fuel: one round for each call of the arena and one to find that there is no parent.
unfoldable pub has_ancestor_of_kind : Trace → CallId → String → Bool
unfolding ancestor_loop
has_ancestor_of_kind t start ident =
    elim (ancestor_loop (suc (length t.arena.calls)) t.arena ident
      (parent_id (call t.arena start))) [ none ↦ false | some found ↦ found ]
