-- ===== src/Dsl/Compile/Lookups.antt =====
-- The lookups of `compile` in a valid pattern all find something.
use rootcause.Prelude.{
  ℕ, suc, ◌≡◌, refl, sym, inl, inr, Option, none, some, List, [], ◌∷◌, map, String, string_Eq, ◌==◌,
  Result, ok, ◌>>=◌, Member, All, Bool-cases, Option-cases,
}
use rootcause.Facts.Arena.{saturate_u32}
use rootcause.Dsl.Ast.{
  SpannedString, EvidenceDecl, BoolExpr, Exprs, evidence_ref, and_expr, or_expr, not_expr, stop,
  item, MetadataEntry, SequenceConstraint, SameCallConstraint, PatternAst,
}
use rootcause.Dsl.Schema.{severity_values}
use rootcause.Dsl.Ir.{Severity, nil, cons, evidence, and_of, or_of, not_of}
use rootcause.Dsl.Validate.Evidence.{declared, is_required_decl}
use rootcause.Dsl.Validate.Metadata.Valid.{key_of, EntryIsValid, MetadataIsValid}
use rootcause.Dsl.Validate.References.Valid.{
  AllNamed, ExprsNamed, IsNamed, ConstraintIsValid, SequenceIsValid, SameCallIsValid,
}
use rootcause.Dsl.Compile.{
  CompileError, position, resolve_name, resolve_all, compile_bool_expr, compile_exprs,
  required_refs, and_unless_single, implicit_required_and, compile_constraint, compile_sequence,
  compile_same_call, expect, family_from, severity_from_str, severity_from, entry_for_key,
  window_of,
}

-- The computation returns a value.
abbrev pub Returns {ℓ} : {A : Type ℓ} → Result CompileError A → Type ℓ
Returns {A = A} r = (a : A) × (r ≡ ok a)

pub >>=-Returns {ℓ κ} :
    {A : Type ℓ} {B : Type κ} (m : Result CompileError A) (k : A → Result CompileError B)
    → Returns m
    → ((a : A) → Returns (k a))
    → Returns (m >>= k)
>>=-Returns m k (a, h) f = rw h (f a)

pub position-some :
    (decls : List EvidenceDecl) (name : String)
    → Member name (declared decls)
    → (i : ℕ) × (position decls name ≡ some i)
unfolding position
position-some [] name m = absurd m
position-some (d ∷ decls) name m = elim (Bool-cases (d.name.value == name)) [
  | inl here ↦ (0, rw (here, position))
  | inr other ↦ elim m [
    | inl same ↦ absurd (let known = (string_Eq.eqb_iff d.name.value name).1 (sym same) in cc)
    | inr later ↦
        let (i, there) = position-some decls name later in (suc i, rw (other, position, there))
  ]
]

pub resolve_name-Returns :
    (decls : List EvidenceDecl) (name : String)
    → Member name (declared decls)
    → Returns (resolve_name decls name)
unfolding resolve_name
resolve_name-Returns decls name m =
    let (i, there) = position-some decls name m in (saturate_u32 i, rw (there, resolve_name))

pub resolve_all-Returns :
    (decls : List EvidenceDecl) (ss : List SpannedString)
    → All (IsNamed (declared decls)) ss
    → Returns (resolve_all decls ss)
unfolding resolve_all
resolve_all-Returns decls [] named = ([], refl)
resolve_all-Returns decls (s ∷ ss) (first, rest) =
    >>=-Returns (resolve_name decls s.value) _ (resolve_name-Returns decls s.value first) (λ r.
      >>=-Returns (resolve_all decls ss) _ (resolve_all-Returns decls ss rest)
        (λ rs. (r ∷ rs, refl)))

mutual
  unfolding compile_bool_expr

  bool_expr-Returns :
      (b : BoolExpr) (decls : List EvidenceDecl)
      → AllNamed (declared decls) b
      → Returns (compile_bool_expr decls b)
  bool_expr-Returns (evidence_ref name) decls named =
      >>=-Returns (resolve_name decls name.value) _ (resolve_name-Returns decls name.value named)
        (λ r. (evidence r, refl))
  bool_expr-Returns (and_expr items span) decls named =
      >>=-Returns (compile_exprs decls items) _ (exprs-Returns items decls named)
        (λ cs. (and_of cs, refl))
  bool_expr-Returns (or_expr items span) decls named =
      >>=-Returns (compile_exprs decls items) _ (exprs-Returns items decls named)
        (λ cs. (or_of cs, refl))
  bool_expr-Returns (not_expr inner span) decls named =
      >>=-Returns (compile_bool_expr decls inner) _ (bool_expr-Returns inner decls named)
        (λ c. (not_of c, refl))

  exprs-Returns :
      (es : Exprs) (decls : List EvidenceDecl)
      → ExprsNamed (declared decls) es
      → Returns (compile_exprs decls es)
  exprs-Returns stop decls named = (nil, refl)
  exprs-Returns (item b es) decls (first, rest) =
      >>=-Returns (compile_bool_expr decls b) _ (bool_expr-Returns b decls first) (λ c.
        >>=-Returns (compile_exprs decls es) _ (exprs-Returns es decls rest)
          (λ cs. (cons c cs, refl)))

pub required_refs-Returns :
    (decls ds : List EvidenceDecl)
    → ((name : String) → Member name (declared ds) → Member name (declared decls))
    → Returns (required_refs decls ds)
unfolding required_refs
required_refs-Returns decls [] known = (nil, refl)
required_refs-Returns decls (d ∷ ds) known =
    let later = required_refs-Returns decls ds (λ name m. known name (inr m)) in
    elim (Bool-cases (is_required_decl d)) [
      | inr left_out ↦ rw (left_out, required_refs) later
      | inl needed ↦
          rw (needed, required_refs)
            (>>=-Returns (resolve_name decls d.name.value) _
              (resolve_name-Returns decls d.name.value (known d.name.value (inl refl)))
              (λ r.
                >>=-Returns (required_refs decls ds) _ later
                  (λ rest. (cons (evidence r) rest, refl))))
    ]

pub constraint-Returns :
    (p : PatternAst)
    → ConstraintIsValid (declared p.evidence) p.constraint
    → Returns (compile_constraint p)
unfolding compile_constraint implicit_required_and
constraint-Returns p valid = elim (Option-cases p.constraint) [
  | inl absent ↦
      rw (absent, compile_constraint)
        (>>=-Returns (required_refs p.evidence p.evidence) _
          (required_refs-Returns p.evidence p.evidence (λ name m. m))
          (λ cs. (and_unless_single cs, refl)))
  | inr (b, written) ↦
      rw (written, compile_constraint) (bool_expr-Returns b p.evidence (rw written at valid))
]

pub sequence-Returns :
    (decls : List EvidenceDecl) (s : Option SequenceConstraint)
    → SequenceIsValid (declared decls) s
    → Returns (compile_sequence decls s)
unfolding compile_sequence
sequence-Returns decls none valid = (none, refl)
sequence-Returns decls (some s) (valid, window) =
    >>=-Returns (resolve_all decls s.steps) _ (resolve_all-Returns decls s.steps valid.named)
      (λ rs. (some (record { steps = rs; within_seconds = window_of s.within_seconds }), refl))

pub same_call-Returns :
    (decls : List EvidenceDecl) (s : Option SameCallConstraint)
    → SameCallIsValid (declared decls) s
    → Returns (compile_same_call decls s)
unfolding compile_same_call
same_call-Returns decls none valid = (none, refl)
same_call-Returns decls (some s) valid =
    >>=-Returns (resolve_all decls s.members) _ (resolve_all-Returns decls s.members valid.named)
      (λ rs. (some (record { members = rs }), refl))

-- The entry that a key that occurs is given.
pub entry_for_key-some :
    (key : String) (entries : List MetadataEntry)
    → Member key (map key_of entries)
    → All EntryIsValid entries
    → (entry : MetadataEntry) × (entry_for_key key entries ≡ some entry.value)
      × (key_of entry ≡ key)
      × EntryIsValid entry
entry_for_key-some key [] m valid = absurd m
entry_for_key-some key (entry ∷ entries) m (first, rest) =
    elim (Bool-cases (entry.key.value == key)) [
      | inl here ↦ (entry, rw here refl, (string_Eq.eqb_iff entry.key.value key).0 here, first)
      | inr other ↦ elim m [
        | inl same ↦ absurd (let known = (string_Eq.eqb_iff entry.key.value key).1 (sym same) in cc)
        | inr later ↦
            let (found, value, named, valid) = entry_for_key-some key entries later rest in
            (found, rw other value, named, valid)
      ]
    ]

pub family-Returns :
    (p : PatternAst)
    → MetadataIsValid p
    → Returns (expect (family_from (entry_for_key "family" p.metadata)))
family-Returns p m =
    let (entry, found, named, valid) =
      entry_for_key-some "family" p.metadata m.has_family m.values in
    let (s, shape) = valid.family named in (s.value, rw (found, shape) refl)

pub severity_from_str-some :
    (s : String) → Member s severity_values → (v : Severity) × (severity_from_str s ≡ some v)
unfolding severity_from_str
severity_from_str-some s (inl e) = rw e (_, refl)
severity_from_str-some s (inr (inl e)) = rw e (_, refl)
severity_from_str-some s (inr (inr (inl e))) = rw e (_, refl)
severity_from_str-some s (inr (inr (inr (inl e)))) = rw e (_, refl)
severity_from_str-some s (inr (inr (inr (inr none_left)))) = absurd none_left

pub severity-Returns :
    (p : PatternAst)
    → MetadataIsValid p
    → Returns (expect (severity_from (entry_for_key "severity" p.metadata)))
unfolding severity_from
severity-Returns p m =
    let (entry, found, named, valid) =
      entry_for_key-some "severity" p.metadata m.has_severity m.values in
    let (s, shape, known) = valid.severity named in
    let (v, level) = severity_from_str-some s.value known in
    (v, rw (found, shape, severity_from, level))
