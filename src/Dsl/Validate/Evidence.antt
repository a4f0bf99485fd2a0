-- ===== src/Dsl/Validate/Evidence.antt =====
-- validate.rs: the evidence declarations and their predicates.
pub mod Valid
use rootcause.Prelude.{
  Bool, true, false, not, ◌&&◌, ◌||◌, Option, none, some, List, [], ◌∷◌, ◌++◌, String, string_Eq,
  ◌==◌, contains, insert, find, any, is_empty, map, if◌then◌else◌,
}
use rootcause.Dsl.Ast.{
  SpannedString, Requiredness, required_clause, optional_clause, AttrValue, ident_literal,
  str_literal, int_literal, bool_literal, PredicateAttr, Predicate, EvidenceDecl, PatternAst,
}
use rootcause.Dsl.Schema.{
  AttrShape, enum_shape, str_shape, int_shape, bool_shape, AttrSchema, PredicateSchema, schema_for,
}
use rootcause.Dsl.Diagnostics.{
  Diagnostics, error_at, duplicate_evidence, no_evidence, only_optional_evidence, unknown_predicate,
  duplicate_attribute, unknown_attribute, unknown_value, wrong_shape, missing_attribute,
  static_reentrancy,
}

-- The set of declared names that `validate_evidence` returns.
abbrev pub declared : List EvidenceDecl → List String
declared = map (λ (d : EvidenceDecl). d.name.value)

-- The `match` on an attribute's value and its shape.
unfoldable pub validate_value : PredicateAttr → AttrValue → AttrShape → Diagnostics
validate_value attr (str_literal s) str_shape = []
validate_value attr (int_literal i) int_shape = []
validate_value attr (bool_literal b) bool_shape = []
validate_value attr (ident_literal ident) (enum_shape values) =
    if contains values ident.value
    then []
    else error_at ident.span (unknown_value ident.value attr.name.value) ∷ []
validate_value attr _ _ = error_at attr.span (wrong_shape attr.name.value) ∷ []

-- One attribute that is not a repetition.
unfoldable pub validate_attr : PredicateSchema → PredicateAttr → Diagnostics
unfolding validate_value
validate_attr schema attr =
    elim (find (λ (a : AttrSchema). a.name == attr.name.value) schema.attrs) [
      | none ↦ error_at attr.name.span (unknown_attribute attr.name.value schema.kind) ∷ []
      | some a ↦ validate_value attr attr.value a.shape
    ]

-- The loop over the attributes, with the names seen so far.
unfoldable pub validate_predicate_attrs :
    PredicateSchema → List String → List PredicateAttr → Diagnostics
unfolding validate_attr
validate_predicate_attrs schema seen [] = []
validate_predicate_attrs schema seen (attr ∷ attrs) =
    if contains seen attr.name.value
    then error_at attr.name.span (duplicate_attribute attr.name.value)
      ∷ validate_predicate_attrs schema seen attrs
    else validate_attr schema attr ++ validate_predicate_attrs schema (attr.name.value ∷ seen) attrs

abbrev pub has_attribute : List PredicateAttr → String → Bool
has_attribute attrs name = any (λ (a : PredicateAttr). a.name.value == name) attrs

-- The loop over the schema's attributes that are required.
unfoldable pub validate_required_attrs_present :
    Predicate → PredicateSchema → List AttrSchema → Diagnostics
validate_required_attrs_present p schema [] = []
validate_required_attrs_present p schema (a ∷ as_left) =
    if a.required && not (has_attribute p.attributes a.name)
    then error_at p.span (missing_attribute schema.kind a.name)
      ∷ validate_required_attrs_present p schema as_left
    else validate_required_attrs_present p schema as_left

abbrev pub is_static_kind : PredicateAttr → Bool
is_static_kind a = elim a.value [
  | ident_literal i ↦ a.name.value == "kind" && i.value == "StaticCall"
  | _ ↦ false
]

abbrev pub is_reentrant_flag : PredicateAttr → Bool
is_reentrant_flag a = elim a.value [
  | bool_literal b ↦ a.name.value == "reentrant" && b.value
  | _ ↦ false
]

unfoldable pub validate_predicate_incompatibilities : Predicate → PredicateSchema → Diagnostics
validate_predicate_incompatibilities p schema =
    if not (schema.kind == "call")
    then []
    else if any is_static_kind p.attributes && any is_reentrant_flag p.attributes
    then error_at p.span static_reentrancy ∷ []
    else []

unfoldable pub validate_predicate : Predicate → Diagnostics
unfolding validate_predicate_attrs validate_required_attrs_present
    validate_predicate_incompatibilities schema_for
validate_predicate p = elim (schema_for p.kind.value) [
  | none ↦ error_at p.kind.span (unknown_predicate p.kind.value) ∷ []
  | some schema ↦
      validate_predicate_attrs schema [] p.attributes
      ++ (validate_required_attrs_present p schema schema.attrs
          ++ validate_predicate_incompatibilities p schema)
]

-- The loop over the declarations, with the names seen so far.
unfoldable pub validate_decls : List String → List EvidenceDecl → Diagnostics
unfolding validate_predicate
validate_decls seen [] = []
validate_decls seen (decl ∷ decls) =
    (if contains seen decl.name.value
      then error_at decl.name.span (duplicate_evidence decl.name.value) ∷ []
      else [])
    ++ (validate_predicate decl.predicate ++ validate_decls (decl.name.value ∷ seen) decls)

abbrev pub is_required_decl : EvidenceDecl → Bool
is_required_decl d = elim d.requiredness [ required_clause ↦ true | optional_clause ↦ false ]

unfoldable pub validate_evidence : PatternAst → Diagnostics
unfolding validate_decls
validate_evidence p =
    validate_decls [] p.evidence
    ++ (if is_empty p.evidence
        then error_at p.span no_evidence ∷ []
        else if any is_required_decl p.evidence
        then []
        else error_at p.span only_optional_evidence ∷ [])
