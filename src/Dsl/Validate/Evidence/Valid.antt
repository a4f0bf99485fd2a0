-- ===== src/Dsl/Validate/Evidence/Valid.antt =====
-- Which evidence declarations validation accepts.
use rootcause.Prelude.{
  ◌≡◌, ◌↔◌, inl, inr, true, false, not, ◌&&◌, some, List, [], ◌∷◌, String, string_Eq, ◌==◌,
  contains, find, any, is_empty, map, Member, All, Bool-cases, Option-cases, &&_iff, arith,
  if◌then◌else◌,
}
use rootcause.Dsl.Ast.{
  Span, AttrValue, ident_literal, str_literal, int_literal, bool_literal, PredicateAttr, Predicate,
  EvidenceDecl, PatternAst,
}
use rootcause.Dsl.Schema.{
  AttrShape, enum_shape, str_shape, int_shape, bool_shape, AttrSchema, PredicateSchema, schema_for,
}
use rootcause.Dsl.Diagnostics.{
  error_at, duplicate_evidence, no_evidence, only_optional_evidence, unknown_predicate,
  duplicate_attribute, unknown_attribute, unknown_value, missing_attribute, static_reentrancy,
}
use rootcause.Dsl.Validate.Clean.{
  IsClean, NoRepeat, IsClean-both, IsClean-nil, error-IsClean, unless_iff, when_iff, contains_iff,
  ↔_trans,
}
use rootcause.Dsl.Validate.Evidence.{
  declared, validate_value, validate_attr, validate_predicate_attrs, has_attribute,
  validate_required_attrs_present, is_static_kind, is_reentrant_flag,
  validate_predicate_incompatibilities, validate_predicate, validate_decls, is_required_decl,
  validate_evidence,
}

abbrev pub HasShape : AttrValue → AttrShape → Type 0
HasShape (str_literal s) str_shape = Unit
HasShape (int_literal i) int_shape = Unit
HasShape (bool_literal b) bool_shape = Unit
HasShape (ident_literal s) (enum_shape values) = Member s.value values
HasShape _ _ = ⊥

-- The schema knows the attribute, and its value has the attribute's shape.
abbrev pub AttrIsValid : PredicateSchema → PredicateAttr → Type 0
AttrIsValid schema attr =
    (a : AttrSchema) × (find (λ (a : AttrSchema). a.name == attr.name.value) schema.attrs ≡ some a)
    × HasShape attr.value a.shape

abbrev pub attr_name : PredicateAttr → String
attr_name a = a.name.value

abbrev pub IsPresent : Predicate → AttrSchema → Type 0
IsPresent p a = a.required ≡ true → has_attribute p.attributes a.name ≡ true

abbrev pub IsCompatible : Predicate → PredicateSchema → Type 0
IsCompatible p schema =
    (schema.kind == "call") ≡ true
    → (any is_static_kind p.attributes && any is_reentrant_flag p.attributes) ≡ false

pub record PredicateIsValid (p : Predicate) : Type 0 where
  pub schema : PredicateSchema
  pub known : schema_for p.kind.value ≡ some schema
  pub names : NoRepeat [] (map attr_name p.attributes)
  pub attrs : All (AttrIsValid schema) p.attributes
  pub present : All (IsPresent p) schema.attrs
  pub compatible : IsCompatible p schema

abbrev pub DeclIsValid : EvidenceDecl → Type 0
DeclIsValid d = PredicateIsValid d.predicate

pub record EvidenceIsValid (p : PatternAst) : Type 0 where
  pub names : NoRepeat [] (declared p.evidence)
  pub predicates : All DeclIsValid p.evidence
  pub has_required : any is_required_decl p.evidence ≡ true

value_iff :
    (attr : PredicateAttr) (v : AttrValue) (shape : AttrShape)
    → IsClean (validate_value attr v shape) ↔ HasShape v shape
unfolding validate_value
value_iff attr (str_literal s) str_shape = (λ h. tt, λ h. IsClean-nil)
value_iff attr (int_literal i) int_shape = (λ h. tt, λ h. IsClean-nil)
value_iff attr (bool_literal b) bool_shape = (λ h. tt, λ h. IsClean-nil)
value_iff attr (ident_literal s) (enum_shape values) =
    ↔_trans (unless_iff (contains values s.value) s.span (unknown_value s.value attr.name.value))
      (contains_iff values s.value)
value_iff attr (str_literal s) (enum_shape values) =
    (λ h. error-IsClean attr.span _ [] h, λ h. absurd h)
value_iff attr (str_literal s) int_shape = (λ h. error-IsClean attr.span _ [] h, λ h. absurd h)
value_iff attr (str_literal s) bool_shape = (λ h. error-IsClean attr.span _ [] h, λ h. absurd h)
value_iff attr (int_literal s) (enum_shape values) =
    (λ h. error-IsClean attr.span _ [] h, λ h. absurd h)
value_iff attr (int_literal s) str_shape = (λ h. error-IsClean attr.span _ [] h, λ h. absurd h)
value_iff attr (int_literal s) bool_shape = (λ h. error-IsClean attr.span _ [] h, λ h. absurd h)
value_iff attr (bool_literal s) (enum_shape values) =
    (λ h. error-IsClean attr.span _ [] h, λ h. absurd h)
value_iff attr (bool_literal s) str_shape = (λ h. error-IsClean attr.span _ [] h, λ h. absurd h)
value_iff attr (bool_literal s) int_shape = (λ h. error-IsClean attr.span _ [] h, λ h. absurd h)
value_iff attr (ident_literal s) str_shape = (λ h. error-IsClean attr.span _ [] h, λ h. absurd h)
value_iff attr (ident_literal s) int_shape = (λ h. error-IsClean attr.span _ [] h, λ h. absurd h)
value_iff attr (ident_literal s) bool_shape = (λ h. error-IsClean attr.span _ [] h, λ h. absurd h)

attr_iff :
    (schema : PredicateSchema) (attr : PredicateAttr)
    → IsClean (validate_attr schema attr) ↔ AttrIsValid schema attr
unfolding validate_attr
attr_iff schema attr =
    elim (Option-cases (find (λ (a : AttrSchema). a.name == attr.name.value) schema.attrs)) [
      | inl unknown ↦ (
        λ h. absurd (
            error-IsClean attr.name.span (unknown_attribute attr.name.value schema.kind) []
              (rw (unknown, validate_attr) at h)),
        λ (a, found, shape). absurd (cc),
      )
      | inr (a, known) ↦
          let (sound, complete) = value_iff attr attr.value a.shape in
          (
            λ h. (a, known, sound (rw (known, validate_attr) at h)),
            λ (b, found, shape).
                let same : b ≡ a = cc in rw (known, validate_attr) (complete (rw (← same) shape)),
          )
    ]

attrs_iff :
    (schema : PredicateSchema) (seen : List String) (attrs : List PredicateAttr)
    → IsClean (validate_predicate_attrs schema seen attrs)
      ↔ (NoRepeat seen (map attr_name attrs) × All (AttrIsValid schema) attrs)
unfolding validate_predicate_attrs
attrs_iff schema seen [] = (λ h. (tt, tt), λ h. IsClean-nil)
attrs_iff schema seen (attr ∷ attrs) = elim (Bool-cases (contains seen attr.name.value)) [
  | inl old ↦ (
    λ h. absurd (
        error-IsClean attr.name.span (duplicate_attribute attr.name.value)
          (validate_predicate_attrs schema seen attrs) (rw (old, validate_predicate_attrs) at h)),
    λ ((fresh, names), valid). absurd (cc),
  )
  | inr new ↦
      let later = attr.name.value ∷ seen in
      let (sound, complete) =
        IsClean-both (validate_attr schema attr) (validate_predicate_attrs schema later attrs)
          (attr_iff schema attr) (attrs_iff schema later attrs) in
      (
        λ h.
            let (one, (names, valid)) = sound (rw (new, validate_predicate_attrs) at h) in
            ((new, names), (one, valid)),
        λ ((fresh, names), (one, valid)).
            rw (new, validate_predicate_attrs) (complete (one, (names, valid))),
      )
]

none_missing_iff :
    (p : Predicate) (schema : PredicateSchema) (attrs : List AttrSchema)
    → IsClean (validate_required_attrs_present p schema attrs) ↔ All (IsPresent p) attrs
unfolding validate_required_attrs_present
none_missing_iff p schema [] = (λ h. tt, λ h. IsClean-nil)
none_missing_iff p schema (a ∷ attrs) =
    let (sound, complete) = none_missing_iff p schema attrs in
    elim (Bool-cases (a.required && not (has_attribute p.attributes a.name))) [
      | inl missing ↦ (
        λ h. absurd (
            error-IsClean p.span (missing_attribute schema.kind a.name)
              (validate_required_attrs_present p schema attrs)
              (rw (missing, validate_required_attrs_present) at h)),
        λ (here, rest). absurd (
            let (needed, absent) =
              (&&_iff a.required (not (has_attribute p.attributes a.name))).0 missing in
            let there = here needed in let stuck = rw there at absent in cc),
      )
      | inr fine ↦ (
        λ h. (λ needed. ground arith, sound (rw (fine, validate_required_attrs_present) at h)),
        λ (here, rest). rw (fine, validate_required_attrs_present) (complete rest),
      )
    ]

no_clash_iff :
    (p : Predicate) (schema : PredicateSchema)
    → IsClean (validate_predicate_incompatibilities p schema) ↔ IsCompatible p schema
unfolding validate_predicate_incompatibilities
no_clash_iff p schema = elim (Bool-cases (schema.kind == "call")) [
  | inr other ↦
      (λ h k. absurd (cc), λ h. rw (other, validate_predicate_incompatibilities) IsClean-nil)
  | inl is_call ↦
      let (sound, complete) =
        when_iff (any is_static_kind p.attributes && any is_reentrant_flag p.attributes) p.span
          static_reentrancy in
      (
        λ h k. sound (rw (is_call, validate_predicate_incompatibilities) at h),
        λ h. rw (is_call, validate_predicate_incompatibilities) (complete (h is_call)),
      )
]

predicate_iff : (p : Predicate) → IsClean (validate_predicate p) ↔ PredicateIsValid p
unfolding validate_predicate
predicate_iff p = elim (Option-cases (schema_for p.kind.value)) [
  | inl unknown ↦ (
    λ h. absurd (
        error-IsClean p.kind.span (unknown_predicate p.kind.value) []
          (rw (unknown, validate_predicate) at h)),
    λ v. absurd (let known = v.known in cc),
  )
  | inr (schema, known) ↦
      let (sound, complete) =
        IsClean-both (validate_predicate_attrs schema [] p.attributes) _
          (attrs_iff schema [] p.attributes)
          (IsClean-both (validate_required_attrs_present p schema schema.attrs)
            (validate_predicate_incompatibilities p schema) (none_missing_iff p schema schema.attrs)
            (no_clash_iff p schema)) in
      (
        λ h.
            let ((names, attrs), (present, compatible)) =
              sound (rw (known, validate_predicate) at h) in
            record {
              schema = schema;
              known = known;
              names = names;
              attrs = attrs;
              present = present;
              compatible = compatible;
            },
        λ v.
            let same : v.schema ≡ schema = (let own = v.known in cc) in
            rw (known, validate_predicate)
              (complete (
                (v.names, rw (← same) v.attrs),
                (rw (← same) v.present, rw (← same) v.compatible),
              )),
      )
]

decls_iff :
    (seen : List String) (decls : List EvidenceDecl)
    → IsClean (validate_decls seen decls) ↔ (NoRepeat seen (declared decls) × All DeclIsValid decls)
unfolding validate_decls
decls_iff seen [] = (λ h. (tt, tt), λ h. IsClean-nil)
decls_iff seen (d ∷ decls) =
    let (sound, complete) =
      IsClean-both (if contains seen d.name.value then _ else []) _
        (when_iff (contains seen d.name.value) d.name.span (duplicate_evidence d.name.value))
        (IsClean-both (validate_predicate d.predicate) (validate_decls (d.name.value ∷ seen) decls)
          (predicate_iff d.predicate) (decls_iff (d.name.value ∷ seen) decls)) in
    (
      λ h. let (fresh, (one, (names, valid))) = sound h in ((fresh, names), (one, valid)),
      λ ((fresh, names), (one, valid)). complete (fresh, (one, (names, valid))),
    )

required_iff :
    (span : Span) (decls : List EvidenceDecl)
    → IsClean (
        if is_empty decls
        then error_at span no_evidence ∷ []
        else if any is_required_decl decls
        then []
        else error_at span only_optional_evidence ∷ [])
      ↔ (any is_required_decl decls ≡ true)
required_iff span [] = (λ h. absurd (error-IsClean span no_evidence [] h), λ h. absurd (cc))
required_iff span (d ∷ decls) =
    unless_iff (any is_required_decl (d ∷ decls)) span only_optional_evidence

-- The evidence is reported free of errors exactly if no name is repeated, every predicate is valid
-- and some clause is required.
pub validate_evidence-EvidenceIsValid_iff :
    (p : PatternAst) → IsClean (validate_evidence p) ↔ EvidenceIsValid p
unfolding validate_evidence
validate_evidence-EvidenceIsValid_iff p =
    let (sound, complete) =
      IsClean-both (validate_decls [] p.evidence) _ (decls_iff [] p.evidence)
        (required_iff p.span p.evidence) in
    (
      λ h.
          let ((names, valid), needed) = sound h in
          record { names = names; predicates = valid; has_required = needed },
      λ v. complete ((v.names, v.predicates), v.has_required),
    )
