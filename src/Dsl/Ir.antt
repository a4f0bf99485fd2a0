-- ===== src/Dsl/Ir.antt =====
-- crates/dsl/src/ir.rs: a compiled pattern, with every name resolved to an index.
use rootcause.Prelude.{ℕ, Bool, Option, none, some, List, String, ◌==◌, string_Eq, find, get_elem?}
use rootcause.Prelude.Int.{ℤ}

-- An index into a pattern's evidence list.
abbrev pub EvidenceRef : Type 0
EvidenceRef = ℕ

pub data Severity : Type 0 where
  low medium high critical : Severity

pub data Requiredness : Type 0 where
  required optional : Requiredness

pub data AttrValue : Type 0 where
  ident_value : String → AttrValue
  str_value : String → AttrValue
  int_value : ℤ → AttrValue  -- i64
  bool_value : Bool → AttrValue

pub record CompiledAttr : Type 0 where
  pub name : String
  pub value : AttrValue

pub record CompiledPredicate : Type 0 where
  pub kind : String
  pub attributes : List CompiledAttr

-- `CompiledPredicate::attr`: the first attribute of that name.
unfoldable pub attr : CompiledPredicate → String → Option AttrValue
attr p name = elim (find (λ (a : CompiledAttr). a.name == name) p.attributes) [
  | none ↦ none
  | some a ↦ some a.value
]

pub record CompiledEvidence : Type 0 where
  pub name : String
  pub requiredness : Requiredness
  pub predicate : CompiledPredicate

-- `Vec<CompiledConstraint>` is the second type of the block.
mutual
  pub data CompiledConstraint : Type 0 where
    evidence : EvidenceRef → CompiledConstraint
    and_of : Items → CompiledConstraint
    or_of : Items → CompiledConstraint
    not_of : CompiledConstraint → CompiledConstraint

  pub data Items : Type 0 where
    nil : Items
    cons : CompiledConstraint → Items → Items

pub record CompiledSequence : Type 0 where
  pub steps : List EvidenceRef
  pub within_seconds : Option ℕ  -- u32

pub record CompiledSameCall : Type 0 where
  pub members : List EvidenceRef

pub record CompiledPattern : Type 0 where
  pub id : String
  pub version : ℕ  -- u32
  pub family : String
  pub severity : Severity
  pub tags : List String
  pub references : List String
  pub evidence : List CompiledEvidence
  pub constraint : CompiledConstraint
  pub sequence : Option CompiledSequence
  pub same_call : Option CompiledSameCall

-- `CompiledPattern::resolve`
unfoldable pub resolve_evidence : CompiledPattern → EvidenceRef → Option CompiledEvidence
resolve_evidence p r = get_elem? p.evidence r
