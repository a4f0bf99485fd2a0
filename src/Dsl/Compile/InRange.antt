-- ===== src/Dsl/Compile/InRange.antt =====
-- The references of a compiled pattern are positions of its clauses.
use rootcause.Prelude.{
  ℕ, suc, ◌≤◌, ◌<◌, ◌≡◌, refl, ap, inl, inr, Bool, true, false, not, Option, none, some, List, [],
  ◌∷◌, String, string_Eq, ◌==◌, ok, >>=-eq-ok, All, length, Bool-cases, Option-cases, arith,
}
use rootcause.Facts.Arena.{saturate_u32}
use rootcause.Facts.Trace.{Trace}
use rootcause.Dsl.Ast.{
  SpannedString, EvidenceDecl, BoolExpr, Exprs, evidence_ref, and_expr, or_expr, not_expr, stop,
  item, SequenceConstraint, SameCallConstraint, PatternAst,
}
use rootcause.Dsl.Diagnostics.{has_errors}
use rootcause.Dsl.Ir.{
  EvidenceRef, CompiledConstraint, Items, evidence, and_of, or_of, not_of, nil, cons,
  CompiledSequence, CompiledSameCall, CompiledPattern,
}
use rootcause.Dsl.Validate.{validate}
use rootcause.Dsl.Validate.Evidence.{is_required_decl}
use rootcause.Dsl.Compile.{
  position, resolve_name, resolve_all, compile_bool_expr, compile_exprs, required_refs,
  and_unless_single, implicit_required_and, compile_constraint, compile_sequence, compile_same_call,
  compile_evidence, expect, family_from, severity_from, entry_for_key, u32_from, window_of,
  dedup_strings, string_list, compile_validated, compile,
}
use rootcause.Matcher.Binding.{CandidateMatch}
use rootcause.Matcher.Constraint.Polarity.{Occurs, OccursIn}
use rootcause.Matcher.Index.{TraceIndex}
use rootcause.Matcher.Engine.{steps_of, members_of, find_candidates}
use rootcause.Matcher.Engine.Bounds.{InBounds, find_candidates-ok_iff}

position-lt :
    (decls : List EvidenceDecl) (name : String) (i : ℕ)
    → position decls name ≡ some i
    → i < length decls
unfolding position
position-lt [] name i h = absurd (cc)
position-lt (d ∷ decls) name i h = elim (Bool-cases (d.name.value == name)) [
  | inl here ↦ let found = rw (here, position) at h in ground arith
  | inr other ↦ elim (Option-cases (position decls name)) [
    | inl missing ↦ absurd (let found = rw (other, position, missing) at h in cc)
    | inr (j, there) ↦
        let below = position-lt decls name j there in
        let found = rw (other, position, there) at h in ground (arith, below)
  ]
]

saturate_u32-le : (i : ℕ) → saturate_u32 i ≤ i
saturate_u32-le i = ground arith

pub resolve_name-lt :
    (decls : List EvidenceDecl) (name : String) (r : EvidenceRef)
    → resolve_name decls name ≡ ok r
    → r < length decls
unfolding resolve_name
resolve_name-lt decls name r h = elim (Option-cases (position decls name)) [
  | inl missing ↦ absurd (let stuck = rw (missing, resolve_name) at h in cc)
  | inr (i, there) ↦
      let found = rw (there, resolve_name) at h in
      let same : saturate_u32 i ≡ r = cc in
      let below = position-lt decls name i there in
      let least = saturate_u32-le i in rw (← same) (omega arith)
]

resolve_all-lt :
    (decls : List EvidenceDecl) (ss : List SpannedString) (rs : List EvidenceRef)
    → resolve_all decls ss ≡ ok rs
    → All (λ (r : EvidenceRef). r < length decls) rs
unfolding resolve_all
resolve_all-lt decls [] rs h = let same : [] ≡ rs = cc in rw (← same) tt
resolve_all-lt decls (s ∷ ss) rs h =
    let (r, first, h₁) = >>=-eq-ok (resolve_name decls s.value) _ h in
    let (rest, others, done) = >>=-eq-ok (resolve_all decls ss) _ h₁ in
    let same : r ∷ rest ≡ rs = cc in
    rw (← same) (resolve_name-lt decls s.value r first, resolve_all-lt decls ss rest others)

-- Every leaf of either sign.
abbrev LeavesBelow : ℕ → CompiledConstraint → Type 0
LeavesBelow n c = (e : EvidenceRef) (s : Bool) → Occurs e s c → e < n

abbrev ItemsBelow : ℕ → Items → Type 0
ItemsBelow n cs = (e : EvidenceRef) (s : Bool) → OccursIn e s cs → e < n

evidence-LeavesBelow : (n : ℕ) (r : EvidenceRef) → r < n → LeavesBelow n (evidence r)
evidence-LeavesBelow n r h e true o = rw o h
evidence-LeavesBelow n r h e false o = absurd o

and_of-LeavesBelow : (n : ℕ) (cs : Items) → ItemsBelow n cs → LeavesBelow n (and_of cs)
and_of-LeavesBelow n cs h e s o = h e s o

cons-ItemsBelow :
    (n : ℕ) (c : CompiledConstraint) (cs : Items)
    → LeavesBelow n c
    → ItemsBelow n cs
    → ItemsBelow n (cons c cs)
cons-ItemsBelow n c cs first rest e s (inl o) = first e s o
cons-ItemsBelow n c cs first rest e s (inr o) = rest e s o

mutual
  unfolding compile_bool_expr

  bool_expr-LeavesBelow :
      (b : BoolExpr) (decls : List EvidenceDecl) (c : CompiledConstraint)
      → compile_bool_expr decls b ≡ ok c
      → LeavesBelow (length decls) c
  bool_expr-LeavesBelow (evidence_ref name) decls c h =
      let (r, found, done) = >>=-eq-ok (resolve_name decls name.value) _ h in
      let same : evidence r ≡ c = cc in
      rw (← same) (evidence-LeavesBelow (length decls) r (resolve_name-lt decls name.value r found))
  bool_expr-LeavesBelow (and_expr items span) decls c h =
      let (cs, found, done) = >>=-eq-ok (compile_exprs decls items) _ h in
      let same : and_of cs ≡ c = cc in
      rw (← same) (λ e s o. exprs-ItemsBelow items decls cs found e s o)
  bool_expr-LeavesBelow (or_expr items span) decls c h =
      let (cs, found, done) = >>=-eq-ok (compile_exprs decls items) _ h in
      let same : or_of cs ≡ c = cc in
      rw (← same) (λ e s o. exprs-ItemsBelow items decls cs found e s o)
  bool_expr-LeavesBelow (not_expr inner span) decls c h =
      let (inside, found, done) = >>=-eq-ok (compile_bool_expr decls inner) _ h in
      let same : not_of inside ≡ c = cc in
      rw (← same) (λ e s o. bool_expr-LeavesBelow inner decls inside found e (not s) o)

  exprs-ItemsBelow :
      (es : Exprs) (decls : List EvidenceDecl) (cs : Items)
      → compile_exprs decls es ≡ ok cs
      → ItemsBelow (length decls) cs
  exprs-ItemsBelow stop decls cs h = let same : nil ≡ cs = cc in rw (← same) (λ e s o. absurd o)
  exprs-ItemsBelow (item b es) decls cs h =
      let (c, first, h₁) = >>=-eq-ok (compile_bool_expr decls b) _ h in
      let (rest, others, done) = >>=-eq-ok (compile_exprs decls es) _ h₁ in
      let same : cons c rest ≡ cs = cc in
      rw (← same) (
        cons-ItemsBelow (length decls) c rest (bool_expr-LeavesBelow b decls c first)
          (exprs-ItemsBelow es decls rest others))

required_refs-ItemsBelow :
    (decls ds : List EvidenceDecl) (cs : Items)
    → required_refs decls ds ≡ ok cs
    → ItemsBelow (length decls) cs
unfolding required_refs
required_refs-ItemsBelow decls [] cs h = let same : nil ≡ cs = cc in rw (← same) (λ e s o. absurd o)
required_refs-ItemsBelow decls (d ∷ ds) cs h = elim (Bool-cases (is_required_decl d)) [
  | inr left_out ↦ required_refs-ItemsBelow decls ds cs (rw (left_out, required_refs) at h)
  | inl needed ↦
      let (r, first, h₁) =
        >>=-eq-ok (resolve_name decls d.name.value) _ (rw (needed, required_refs) at h) in
      let (rest, others, done) = >>=-eq-ok (required_refs decls ds) _ h₁ in
      let same : cons (evidence r) rest ≡ cs = cc in
      rw (← same) (
        cons-ItemsBelow (length decls) (evidence r) rest
          (evidence-LeavesBelow (length decls) r (resolve_name-lt decls d.name.value r first))
          (required_refs-ItemsBelow decls ds rest others))
]

and_unless_single-LeavesBelow :
    (n : ℕ) (cs : Items) → ItemsBelow n cs → LeavesBelow n (and_unless_single cs)
and_unless_single-LeavesBelow n nil h = and_of-LeavesBelow n nil h
and_unless_single-LeavesBelow n (cons c nil) h = λ e s o. h e s (inl o)
and_unless_single-LeavesBelow n (cons c (cons d cs)) h = and_of-LeavesBelow n (cons c (cons d cs)) h

constraint-LeavesBelow :
    (p : PatternAst) (c : CompiledConstraint)
    → compile_constraint p ≡ ok c
    → LeavesBelow (length p.evidence) c
unfolding compile_constraint implicit_required_and
constraint-LeavesBelow p c h = elim (Option-cases p.constraint) [
  | inr (b, written) ↦ bool_expr-LeavesBelow b p.evidence c (rw (written, compile_constraint) at h)
  | inl absent ↦
      let (cs, found, done) =
        >>=-eq-ok (required_refs p.evidence p.evidence) _ (rw (absent, compile_constraint) at h) in
      let same : and_unless_single cs ≡ c = cc in
      rw (← same) (
        and_unless_single-LeavesBelow (length p.evidence) cs
          (required_refs-ItemsBelow p.evidence p.evidence cs found))
]

sequence-lt :
    (decls : List EvidenceDecl) (s : Option SequenceConstraint) (c : Option CompiledSequence)
    → compile_sequence decls s ≡ ok c
    → All (λ (r : EvidenceRef). r < length decls) (steps_of c)
unfolding compile_sequence
sequence-lt decls none c h = let same : none ≡ c = cc in rw (← same) tt
sequence-lt decls (some s) c h =
    let (rs, found, done) = >>=-eq-ok (resolve_all decls s.steps) _ h in
    let same : some (record { steps = rs; within_seconds = window_of s.within_seconds }) ≡ c = cc in
    rw (← same) (resolve_all-lt decls s.steps rs found)

same_call-lt :
    (decls : List EvidenceDecl) (s : Option SameCallConstraint) (c : Option CompiledSameCall)
    → compile_same_call decls s ≡ ok c
    → All (λ (r : EvidenceRef). r < length decls) (members_of c)
unfolding compile_same_call
same_call-lt decls none c h = let same : none ≡ c = cc in rw (← same) tt
same_call-lt decls (some s) c h =
    let (rs, found, done) = >>=-eq-ok (resolve_all decls s.members) _ h in
    let same : some (record { members = rs }) ≡ c = cc in
    rw (← same) (resolve_all-lt decls s.members rs found)

length-compile_evidence :
    (decls : List EvidenceDecl) → length (compile_evidence decls) ≡ length decls
length-compile_evidence [] = refl
length-compile_evidence (d ∷ decls) = ap suc (length-compile_evidence decls)

compile_validated-InBounds :
    (p : PatternAst) (c : CompiledPattern) → compile_validated p ≡ ok c → InBounds c
unfolding compile_validated
compile_validated-InBounds p c h =
    let (constraint, written, h₁) = >>=-eq-ok (compile_constraint p) _ h in
    let (sequence, ordered, h₂) = >>=-eq-ok (compile_sequence p.evidence p.sequence) _ h₁ in
    let (same_call, grouped, h₃) = >>=-eq-ok (compile_same_call p.evidence p.same_call) _ h₂ in
    let (family, _, h₄) =
      >>=-eq-ok (expect (family_from (entry_for_key "family" p.metadata))) _ h₃ in
    let (severity, _, h₅) =
      >>=-eq-ok (expect (severity_from (entry_for_key "severity" p.metadata))) _ h₄ in
    let (version, _, done) = >>=-eq-ok (expect (u32_from p.version.value)) _ h₅ in
    let n = length-compile_evidence p.evidence in
    let made : CompiledPattern = record {
      id = p.id.value;
      version = version;
      family = family;
      severity = severity;
      tags = dedup_strings (string_list p "tags");
      references = dedup_strings (string_list p "references");
      evidence = compile_evidence p.evidence;
      constraint = constraint;
      sequence = sequence;
      same_call = same_call;
    } in
    let same : made ≡ c = cc in
    rw (← same) (record {
      leaves = rw n (constraint-LeavesBelow p constraint written);
      steps = rw n (sequence-lt p.evidence p.sequence sequence ordered);
      members = rw n (same_call-lt p.evidence p.same_call same_call grouped);
    })

-- Every reference of a pattern that `compile` returns names one of its clauses.
pub compile-InBounds : (p : PatternAst) (c : CompiledPattern) → compile p ≡ ok c → InBounds c
unfolding compile
compile-InBounds p c h = elim (Bool-cases (has_errors (validate p))) [
  | inl invalid ↦ absurd (let stuck = rw (invalid, compile) at h in cc)
  | inr valid ↦ compile_validated-InBounds p c (rw (valid, compile) at h)
]

-- The matcher never rejects a pattern that `compile` returned: on every trace and index,
-- `find_candidates` returns a list of candidates for it, so its out-of-range errors are not reached.
pub compile-find_candidates :
    (p : PatternAst) (c : CompiledPattern) (t : Trace) (index : TraceIndex)
    → compile p ≡ ok c
    → (cs : List CandidateMatch) × (find_candidates t index c ≡ ok cs)
compile-find_candidates p c t index h =
    (find_candidates-ok_iff t index c).1 (compile-InBounds p c h)
