-- ===== src/Dsl/Compile/Outcome.antt =====
-- What `compile` returns: diagnostics, a pattern, or a panic on a version beyond 32 bits.
use rootcause.Prelude.{
  ℕ, ◌≤◌, ◌<◌, ◌≡◌, refl, ◌∙◌, ◌↔◌, ◌⊎◌, inl, inr, true, false, string_Eq, ok, err, ◌>>=◌,
  Bool-cases, arith, ltb, lt→ltb,
}
use rootcause.Prelude.Int.{ℤ, pos, negsuc, leb_int}
use rootcause.Facts.Arena.{u32_mod}
use rootcause.Dsl.Ast.{PatternAst}
use rootcause.Dsl.Diagnostics.{Diagnostics, has_errors}
use rootcause.Dsl.Ir.{CompiledPattern}
use rootcause.Dsl.Validate.{validate}
use rootcause.Dsl.Validate.Valid.{IsValid, validate-IsValid_iff}
use rootcause.Dsl.Compile.{
  rejected, panicked, compile_evidence, expect, u32_from, dedup_strings, string_list,
  compile_validated, compile,
}
use rootcause.Dsl.Compile.Lookups.{
  Returns, constraint-Returns, sequence-Returns, same_call-Returns, family-Returns,
  severity-Returns,
}

-- Past the checks and the other lookups, only the version can stop compilation.
IsValid-compile :
    (p : PatternAst)
    → IsValid p
    → (made : ℕ → CompiledPattern) × (compile p
        ≡ (expect (u32_from p.version.value) >>= λ version. ok (made version)))
unfolding compile compile_validated
IsValid-compile p v =
    let accepted = (validate-IsValid_iff p).1 v in
    let (constraint, c) = constraint-Returns p v.references.constraint in
    let (sequence, s) = sequence-Returns p.evidence p.sequence v.references.sequence in
    let (same_call, g) = same_call-Returns p.evidence p.same_call v.references.same_call in
    let (family, f) = family-Returns p v.metadata in
    let (severity, l) = severity-Returns p v.metadata in
    (
      λ version. record {
        id = p.id.value;
        version = version;
        family = family;
        severity = severity;
        tags = dedup_strings (string_list p "tags");
        references = dedup_strings (string_list p "references");
        evidence = compile_evidence p.evidence;
        constraint = constraint;
        sequence = sequence;
        same_call = same_call;
      },
      rw (accepted, c, s, g, f, l),
    )

-- The version in its 32 bits, and beyond them.
abbrev pub Fits : PatternAst → Type 0
Fits p = (n : ℕ) × (p.version.value ≡ pos n) × (n < u32_mod)

abbrev pub Overflows : PatternAst → Type 0
Overflows p = (n : ℕ) × (p.version.value ≡ pos n) × (u32_mod ≤ n)

version_of : (v : ℤ) → leb_int (pos 1) v ≡ true → (n : ℕ) × (v ≡ pos n)
version_of (pos n) h = (n, refl)
version_of (negsuc n) h = absurd (cc)

version-cases : (p : PatternAst) → IsValid p → Fits p ⊎ Overflows p
version-cases p v =
    let (n, e) = version_of p.version.value v.metadata.version in
    elim (Bool-cases (ltb n u32_mod)) [
      | inl small ↦ inl (n, e, ground arith)
      | inr large ↦ inr (n, e, ground arith)
    ]

Fits-compile : (p : PatternAst) → IsValid p → Fits p → Returns (compile p)
Fits-compile p v (n, e, small) =
    let (made, result) = IsValid-compile p v in
    (made n, result ∙ rw (e, lt→ltb n u32_mod small) refl)

Overflows-compile : (p : PatternAst) → IsValid p → Overflows p → compile p ≡ err panicked
Overflows-compile p v (n, e, large) =
    let (made, result) = IsValid-compile p v in
    let over : ltb n u32_mod ≡ false = ground arith in result ∙ rw (e, over) refl

-- An invalid pattern is reported.
invalid-compile :
    (p : PatternAst) → has_errors (validate p) ≡ true → compile p ≡ err (rejected (validate p))
unfolding compile
invalid-compile p h = rw (h, compile)

compile-cases : (p : PatternAst) → ((d : Diagnostics) × (compile p ≡ err (rejected d))) ⊎ IsValid p
compile-cases p = elim (Bool-cases (has_errors (validate p))) [
  | inl invalid ↦ inl (validate p, invalid-compile p invalid)
  | inr clean ↦ inr ((validate-IsValid_iff p).0 clean)
]

-- `compile` returns a pattern exactly for a valid pattern whose version fits 32 bits, and panics
-- exactly for a valid pattern whose version does not.
pub compile_outcome_iff :
    (p : PatternAst)
    → (Returns (compile p) ↔ (IsValid p × Fits p))
      × ((compile p ≡ err panicked) ↔ (IsValid p × Overflows p))
compile_outcome_iff p = (
  (
    λ (c, h). elim (compile-cases p) [
      | inl (d, reported) ↦ absurd (cc)
      | inr v ↦ elim (version-cases p v) [
        | inl fits ↦ (v, fits)
        | inr over ↦ absurd (let stopped = Overflows-compile p v over in cc)
      ]
    ],
    λ (v, fits). Fits-compile p v fits,
  ),
  (
    λ h. elim (compile-cases p) [
      | inl (d, reported) ↦ absurd (cc)
      | inr v ↦ elim (version-cases p v) [
        | inl fits ↦ absurd (let (c, made) = Fits-compile p v fits in cc)
        | inr over ↦ (v, over)
      ]
    ],
    λ (v, over). Overflows-compile p v over,
  ),
)
