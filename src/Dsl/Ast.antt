-- ===== src/Dsl/Ast.antt =====
-- crates/dsl/src/ast.rs and span.rs: a parsed pattern, before validation.
use rootcause.Prelude.{ℕ, Bool, Option, List, String}
use rootcause.Prelude.Int.{ℤ}

-- Byte offsets into the source text, u32 each.
pub record Span : Type 0 where
  pub start : ℕ
  pub end : ℕ

pub record SpannedString : Type 0 where
  pub value : String
  pub span : Span

pub record SpannedInt : Type 0 where
  pub value : ℤ  -- i64
  pub span : Span

pub record SpannedBool : Type 0 where
  pub value : Bool
  pub span : Span

pub data MetadataValue : Type 0 where
  ident_metadata : SpannedString → MetadataValue
  str_metadata : SpannedString → MetadataValue
  list_metadata : List SpannedString → MetadataValue

pub record MetadataEntry : Type 0 where
  pub key : SpannedString
  pub value : MetadataValue
  pub span : Span

pub data Requiredness : Type 0 where
  required_clause optional_clause : Requiredness

pub data AttrValue : Type 0 where
  ident_literal : SpannedString → AttrValue
  str_literal : SpannedString → AttrValue
  int_literal : SpannedInt → AttrValue
  bool_literal : SpannedBool → AttrValue

pub record PredicateAttr : Type 0 where
  pub name : SpannedString
  pub value : AttrValue
  pub span : Span

pub record Predicate : Type 0 where
  pub kind : SpannedString
  pub attributes : List PredicateAttr
  pub span : Span

pub record EvidenceDecl : Type 0 where
  pub requiredness : Requiredness
  pub name : SpannedString
  pub predicate : Predicate
  pub span : Span

-- `Vec<BoolExpr>` is the second type of the block.
mutual
  pub data BoolExpr : Type 0 where
    evidence_ref : SpannedString → BoolExpr
    and_expr : Exprs → Span → BoolExpr
    or_expr : Exprs → Span → BoolExpr
    not_expr : BoolExpr → Span → BoolExpr

  pub data Exprs : Type 0 where
    stop : Exprs
    item : BoolExpr → Exprs → Exprs

pub record SequenceConstraint : Type 0 where
  pub steps : List SpannedString
  pub within_seconds : Option SpannedInt
  pub span : Span

pub record SameCallConstraint : Type 0 where
  pub members : List SpannedString
  pub span : Span

pub record PatternAst : Type 0 where
  pub id : SpannedString
  pub version : SpannedInt
  pub metadata : List MetadataEntry
  pub evidence : List EvidenceDecl
  pub constraint : Option BoolExpr
  pub sequence : Option SequenceConstraint
  pub same_call : Option SameCallConstraint
  pub span : Span
