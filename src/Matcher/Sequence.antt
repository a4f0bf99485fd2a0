-- ===== src/Matcher/Sequence.antt =====
-- crates/matcher/src/sequence.rs: greedy choice of one occurrence for each step of a sequence.
pub mod Greedy
use rootcause.Prelude.{
  ℕ, Bool, true, false, Option, none, some, List, [], ◌∷◌, leb, find, get_elem?, if◌then◌else◌,
}
use rootcause.Dsl.Ir.{EvidenceRef, CompiledSequence}
use rootcause.Matcher.Binding.{Binding}

-- `LowerBoundExt::permits`
unfoldable pub permits : Option ℕ → Option ℕ → Bool
permits none candidate = true
permits (some bound) none = true
permits (some bound) (some value) = leb bound value

-- `if let Some(order) = chosen.order { lower_bound = Some(order) }`
abbrev pub raised : Option ℕ → Option ℕ → Option ℕ
raised lower_bound none = lower_bound
raised lower_bound (some order) = some order

-- The loop over the steps, from a lower bound; the steps not yet chosen come last.
resolve_from : List (List Binding) → Option ℕ → List EvidenceRef → Option (List Binding)
unfolding permits
resolve_from evidence_matches lower_bound [] = some []
resolve_from evidence_matches lower_bound (step ∷ steps) = elim (get_elem? evidence_matches step) [
  | none ↦ none
  | some candidates ↦ elim (find (λ (b : Binding). permits lower_bound b.order) candidates) [
    | none ↦ none
    | some chosen ↦ elim (resolve_from evidence_matches (raised lower_bound chosen.order) steps) [
      | none ↦ none
      | some rest ↦ some (chosen ∷ rest)
    ]
  ]
]

unfoldable pub resolve : CompiledSequence → List (List Binding) → Option (List Binding)
unfolding resolve_from
resolve sequence evidence_matches = resolve_from evidence_matches none sequence.steps
