-- ===== src/Dsl/Compile.antt =====
-- crates/dsl/src/compile.rs: a validated pattern with its names resolved to indices.
--
-- An `expect` that finds nothing is `panicked`.
pub mod InRange
pub mod Lookups
pub mod Outcome
use rootcause.Prelude.{
  ℕ, zero, suc, Bool, true, false, Option, none, some, List, [], ◌∷◌, ◌^◌, String, string_Eq, ◌==◌,
  Result, ok, err, ◌>>=◌, contains, find, filter, ltb, if◌then◌else◌,
}
use rootcause.Prelude.Int.{ℤ, pos, negsuc}
use rootcause.Facts.Arena.{saturate_u32, u32_mod}
use rootcause.Dsl.Ast.{
  SpannedString, SpannedInt, MetadataValue, ident_metadata, list_metadata, MetadataEntry,
  required_clause, optional_clause, ident_literal, str_literal, int_literal, bool_literal,
  PredicateAttr, Predicate, EvidenceDecl, BoolExpr, Exprs, evidence_ref, and_expr, or_expr,
  not_expr, stop, item, SequenceConstraint, SameCallConstraint, PatternAst,
}
use rootcause.Dsl.Ast
use rootcause.Dsl.Diagnostics.{Diagnostics, has_errors}
use rootcause.Dsl.Ir.{
  EvidenceRef, Severity, low, medium, high, critical, Requiredness, required, optional, AttrValue,
  ident_value, str_value, int_value, bool_value, CompiledAttr, CompiledPredicate, CompiledEvidence,
  CompiledConstraint, Items, evidence, and_of, or_of, not_of, nil, cons, CompiledSequence,
  CompiledSameCall, CompiledPattern,
}
use rootcause.Dsl.Validate.Evidence.{is_required_decl}
use rootcause.Dsl.Validate.{validate}

pub data CompileError : Type 0 where
  rejected : Diagnostics → CompileError
  panicked : CompileError

-- `expect`
abbrev pub expect {ℓ} : {A : Type ℓ} → Option A → Result CompileError A
expect none = err panicked
expect (some a) = ok a

abbrev pub compile_requiredness : Ast.Requiredness → Requiredness
compile_requiredness required_clause = required
compile_requiredness optional_clause = optional

abbrev pub compile_value : Ast.AttrValue → AttrValue
compile_value (ident_literal s) = ident_value s.value
compile_value (str_literal s) = str_value s.value
compile_value (int_literal i) = int_value i.value
compile_value (bool_literal b) = bool_value b.value

abbrev pub compile_attrs : List PredicateAttr → List CompiledAttr
compile_attrs [] = []
compile_attrs (a ∷ as_left) =
    record { name = a.name.value; value = compile_value a.value } ∷ compile_attrs as_left

abbrev pub compile_evidence : List EvidenceDecl → List CompiledEvidence
compile_evidence [] = []
compile_evidence (d ∷ decls) =
    record {
      name = d.name.value;
      requiredness = compile_requiredness d.requiredness;
      predicate = record {
        kind = d.predicate.kind.value;
        attributes = compile_attrs d.predicate.attributes;
      };
    }
    ∷ compile_evidence decls

-- `evidence.iter().position(|d| d.name.value == name)`
pub position : List EvidenceDecl → String → Option ℕ
position [] name = none
position (d ∷ decls) name =
    let rest = position decls name in
    if d.name.value == name then some 0 else elim rest [ none ↦ none | some i ↦ some (suc i) ]

pub resolve_name : List EvidenceDecl → String → Result CompileError EvidenceRef
unfolding position
resolve_name decls name = elim (position decls name) [
  | none ↦ err panicked
  | some idx ↦ ok (saturate_u32 idx)
]

-- `.iter().map(|s| resolve(&s.value)).collect()`
pub resolve_all : List EvidenceDecl → List SpannedString → Result CompileError (List EvidenceRef)
unfolding resolve_name
resolve_all decls [] = ok []
resolve_all decls (s ∷ ss) = do
  r ← resolve_name decls s.value
  rest ← resolve_all decls ss
  ok (r ∷ rest)

unfoldable mutual
  unfolding resolve_name

  pub compile_bool_expr : List EvidenceDecl → BoolExpr → Result CompileError CompiledConstraint
  compile_bool_expr decls (evidence_ref name) =
      resolve_name decls name.value >>= λ r. ok (evidence r)
  compile_bool_expr decls (and_expr items span) = compile_exprs decls items >>= λ cs. ok (and_of cs)
  compile_bool_expr decls (or_expr items span) = compile_exprs decls items >>= λ cs. ok (or_of cs)
  compile_bool_expr decls (not_expr inner span) =
      compile_bool_expr decls inner >>= λ c. ok (not_of c)

  pub compile_exprs : List EvidenceDecl → Exprs → Result CompileError Items
  compile_exprs decls stop = ok nil
  compile_exprs decls (item e es) =
      compile_bool_expr decls e >>= λ c. compile_exprs decls es >>= λ cs. ok (cons c cs)

-- The references of the required clauses.
pub required_refs : List EvidenceDecl → List EvidenceDecl → Result CompileError Items
unfolding resolve_name
required_refs decls [] = ok nil
required_refs decls (d ∷ ds) = elim (is_required_decl d) [
  | false ↦ required_refs decls ds
  | true ↦ resolve_name decls d.name.value >>= λ r.
      required_refs decls ds >>= λ rest. ok (cons (evidence r) rest)
]

abbrev pub and_unless_single : Items → CompiledConstraint
and_unless_single (cons c nil) = c
and_unless_single cs = and_of cs

unfoldable pub implicit_required_and : List EvidenceDecl → Result CompileError CompiledConstraint
unfolding required_refs
implicit_required_and decls = required_refs decls decls >>= λ refs. ok (and_unless_single refs)

unfoldable pub compile_constraint : PatternAst → Result CompileError CompiledConstraint
unfolding implicit_required_and compile_bool_expr
compile_constraint p = elim p.constraint [
  | none ↦ implicit_required_and p.evidence
  | some expr ↦ compile_bool_expr p.evidence expr
]

-- `u32::try_from` of an i64.
abbrev pub u32_from : ℤ → Option ℕ
u32_from (pos n) = if ltb n u32_mod then some n else none
u32_from (negsuc n) = none

abbrev pub window_of : Option SpannedInt → Option ℕ
window_of none = none
window_of (some w) = u32_from w.value

unfoldable pub compile_sequence :
    List EvidenceDecl → Option SequenceConstraint → Result CompileError (Option CompiledSequence)
unfolding resolve_all
compile_sequence decls none = ok none
compile_sequence decls (some s) = resolve_all decls s.steps >>= λ steps.
    ok (some (record { steps = steps; within_seconds = window_of s.within_seconds }))

unfoldable pub compile_same_call :
    List EvidenceDecl → Option SameCallConstraint → Result CompileError (Option CompiledSameCall)
unfolding resolve_all
compile_same_call decls none = ok none
compile_same_call decls (some s) =
    resolve_all decls s.members >>= λ members. ok (some (record { members = members }))

abbrev pub entry_for_key : String → List MetadataEntry → Option MetadataValue
entry_for_key key [] = none
entry_for_key key (entry ∷ entries) =
    if entry.key.value == key then some entry.value else entry_for_key key entries

abbrev pub family_from : Option MetadataValue → Option String
family_from (some (ident_metadata s)) = some s.value
family_from _ = none

unfoldable pub severity_from_str : String → Option Severity
severity_from_str s =
    if s == "Low"
    then some low
    else if s == "Medium"
    then some medium
    else if s == "High"
    then some high
    else if s == "Critical"
    then some critical
    else none

unfoldable pub severity_from : Option MetadataValue → Option Severity
unfolding severity_from_str
severity_from (some (ident_metadata s)) = severity_from_str s.value
severity_from _ = none

abbrev values_of : List SpannedString → List String
values_of [] = []
values_of (s ∷ ss) = s.value ∷ values_of ss

abbrev list_from : Option MetadataValue → List String
list_from (some (list_metadata items)) = values_of items
list_from _ = []

pub string_list : PatternAst → String → List String
string_list p key = list_from (entry_for_key key p.metadata)

-- The filter that keeps what was not seen before.
pub dedup_from : List String → List String → List String
dedup_from seen [] = []
dedup_from seen (s ∷ ss) =
    if contains seen s then dedup_from seen ss else s ∷ dedup_from (s ∷ seen) ss

unfoldable pub dedup_strings : List String → List String
unfolding dedup_from
dedup_strings = dedup_from []

-- What `compile` does once validation has found no error.
unfoldable pub compile_validated : PatternAst → Result CompileError CompiledPattern
unfolding compile_constraint compile_sequence compile_same_call string_list severity_from
    dedup_strings
compile_validated p = compile_constraint p >>= λ constraint.
    compile_sequence p.evidence p.sequence >>= λ sequence.
    compile_same_call p.evidence p.same_call >>= λ same_call.
    expect (family_from (entry_for_key "family" p.metadata)) >>= λ family.
    expect (severity_from (entry_for_key "severity" p.metadata)) >>= λ severity.
    expect (u32_from p.version.value) >>= λ version. ok (record {
      id = p.id.value;
      version = version;
      family = family;
      severity = severity;
      tags = dedup_strings (string_list p "tags");
      references = dedup_strings (string_list p "references");
      evidence = compile_evidence p.evidence;
      constraint = constraint;
      sequence = sequence;
      same_call = same_call;
    })

unfoldable pub compile : PatternAst → Result CompileError CompiledPattern
unfolding compile_validated validate
compile p =
    let diags = validate p in if has_errors diags then err (rejected diags) else compile_validated p
