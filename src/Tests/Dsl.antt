-- ===== src/Tests/Dsl.antt =====
-- A parsed pattern of reentrancy, its compilation, and the theorems of Dsl at it.
use rootcause.Prelude.{
  ℕ, ◌≡◌, ◌↔◌, refl, true, false, none, some, List, [], ◌∷◌, ◌^◌, String, ok, err,
}
use rootcause.Prelude.Int.{pos}
use rootcause.Dsl.Ast.{
  Span, SpannedString, MetadataEntry, ident_metadata, list_metadata, required_clause,
  optional_clause, ident_literal, bool_literal, PredicateAttr, EvidenceDecl, and_expr, evidence_ref,
  stop, item, PatternAst,
}
use rootcause.Dsl.Diagnostics.{has_errors}
use rootcause.Dsl.Ir.{CompiledPattern}
use rootcause.Dsl.Ir
use rootcause.Dsl.Validate.{validate}
use rootcause.Dsl.Validate.Valid.{IsValid, validate-IsValid_iff}
use rootcause.Dsl.Compile.{panicked, compile}
use rootcause.Dsl.Compile.InRange.{compile-find_candidates}
use rootcause.Dsl.Compile.Lookups.{Returns}
use rootcause.Dsl.Compile.Outcome.{Fits, Overflows, compile_outcome_iff}
use rootcause.Matcher.Binding.{CandidateMatch}
use rootcause.Matcher.Index.{build_index}
use rootcause.Matcher.Engine.{find_candidates}
use rootcause.Tests.Data.{reentrant_trace}

abbrev here : Span
here = record { start = 0; end = 0 }

abbrev text : String → SpannedString
text s = record { value = s; span = here }

abbrev flag : String → PredicateAttr
flag name = record {
  name = text name;
  value = bool_literal (record { value = true; span = here });
  span = here;
}

abbrev reentrant_call : EvidenceDecl
reentrant_call = record {
  requiredness = required_clause;
  name = text "callback";
  predicate = record {
    kind = text "call";
    attributes =
        record { name = text "kind"; value = ident_literal (text "External"); span = here }
        ∷ flag "reentrant"
        ∷ [];
    span = here;
  };
  span = here;
}

abbrev any_write : EvidenceDecl
any_write = record {
  requiredness = optional_clause;
  name = text "write";
  predicate = record { kind = text "storage"; attributes = flag "changed" ∷ []; span = here };
  span = here;
}

abbrev metadata : List MetadataEntry
metadata =
    record { key = text "family"; value = ident_metadata (text "Reentrancy"); span = here }
    ∷ record { key = text "severity"; value = ident_metadata (text "High"); span = here }
    ∷ record {
      key = text "tags";
      value = list_metadata (text "call" ∷ text "call" ∷ []);
      span = here;
    }
    ∷ []

-- The pattern, at a version.
abbrev reentrancy_source : ℕ → PatternAst
reentrancy_source version = record {
  id = text "reentrancy";
  version = record { value = pos version; span = here };
  metadata = metadata;
  evidence = reentrant_call ∷ any_write ∷ [];
  constraint = some (
      and_expr (item (evidence_ref (text "callback")) (item (evidence_ref (text "write")) stop))
        here);
  sequence =
      some (record {
        steps = text "callback" ∷ text "write" ∷ [];
        within_seconds = none;
        span = here;
      });
  same_call = none;
  span = here;
}

abbrev compiled : CompiledPattern
compiled = record {
  id = "reentrancy";
  version = 1;
  family = "Reentrancy";
  severity = Ir.high;
  tags = "call" ∷ [];
  references = [];
  evidence =
      record {
        name = "callback";
        requiredness = Ir.required;
        predicate = record {
          kind = "call";
          attributes =
              record { name = "kind"; value = Ir.ident_value "External" }
              ∷ record { name = "reentrant"; value = Ir.bool_value true }
              ∷ [];
        };
      }
      ∷ record {
        name = "write";
        requiredness = Ir.optional;
        predicate = record {
          kind = "storage";
          attributes = record { name = "changed"; value = Ir.bool_value true } ∷ [];
        };
      }
      ∷ [];
  constraint = Ir.and_of (Ir.cons (Ir.evidence 0) (Ir.cons (Ir.evidence 1) Ir.nil));
  sequence = some (record { steps = 0 ∷ 1 ∷ []; within_seconds = none });
  same_call = none;
}

reentrancy_source-compile : compile (reentrancy_source 1) ≡ ok compiled
unfolding compile has_errors
reentrancy_source-compile = refl

-- The version that does not fit is accepted by validation.
large_version-validate : has_errors (validate (reentrancy_source (2 ^ 32))) ≡ false
unfolding validate has_errors
large_version-validate = refl

large_version-compile : compile (reentrancy_source (2 ^ 32)) ≡ err panicked
unfolding compile has_errors
large_version-compile = refl

validate-IsValid_iff_example :
    (has_errors (validate (reentrancy_source 1)) ≡ false) ↔ IsValid (reentrancy_source 1)
validate-IsValid_iff_example = validate-IsValid_iff (reentrancy_source 1)

compile-find_candidates_example :
    (cs : List CandidateMatch) × (find_candidates reentrant_trace
        (build_index reentrant_trace)
        compiled
      ≡ ok cs)
compile-find_candidates_example =
    compile-find_candidates (reentrancy_source 1) compiled reentrant_trace
      (build_index reentrant_trace) reentrancy_source-compile

compile_outcome_iff_example :
    (Returns (compile (reentrancy_source (2 ^ 32)))
      ↔ (IsValid (reentrancy_source (2 ^ 32)) × Fits (reentrancy_source (2 ^ 32))))
    × ((compile (reentrancy_source (2 ^ 32)) ≡ err panicked)
        ↔ (IsValid (reentrancy_source (2 ^ 32)) × Overflows (reentrancy_source (2 ^ 32))))
compile_outcome_iff_example = compile_outcome_iff (reentrancy_source (2 ^ 32))
