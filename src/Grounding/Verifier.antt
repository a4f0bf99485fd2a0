-- ===== src/Grounding/Verifier.antt =====
-- crates/grounding/src/verifier.rs and verifiers.rs: one clause checked again from the trace.
pub mod Outcomes
use rootcause.Prelude.{
  ℕ, Bool, true, false, not, Option, none, some, List, [], ◌∷◌, String, ◌==◌, string_Eq, any, head?,
  is_empty, length, lookup, map_insert, if◌then◌else◌,
}
use rootcause.Facts.Types.{FactRef, fact_Eq}
use rootcause.Facts.Trace.{Trace}
use rootcause.Dsl.Ir.{CompiledPredicate}
use rootcause.Matcher.Binding.{Binding}
use rootcause.Matcher.Index.{TraceIndex}
use rootcause.Matcher.Predicate.{evaluate}
use rootcause.Grounding.Status.{
  EvidenceOutcome, verified, failed, unavailable, unsupported, Polarity, is_negative, Reason,
  absence_confirmed, no_fact, reconfirmed, not_satisfying, own_fact, attributes_unverifiable,
  absence_contradicted, VerifierOutcome,
}

abbrev pub first_fact : List Binding → Option FactRef
first_fact [] = none
first_fact (b ∷ bs) = some b.fact

abbrev pub first_attrs : List Binding → List String
first_attrs [] = []
first_attrs (b ∷ bs) = b.unresolved_attrs

abbrev pub cites : List Binding → FactRef → Bool
cites bs f = any (λ (b : Binding). b.fact == f) bs

-- The `match` on the cited fact.
check_cited : List Binding → Option FactRef → VerifierOutcome
check_cited bs (some cited) =
    if cites bs cited
    then record {
      outcome = verified;
      fact = some cited;
      unresolved_attrs = [];
      reason = reconfirmed;
    }
    else record {
      outcome = failed;
      fact = some cited;
      unresolved_attrs = [];
      reason = not_satisfying;
    }
check_cited bs none = record {
  outcome = verified;
  fact = first_fact bs;
  unresolved_attrs = [];
  reason = own_fact;
}

-- `verify_via_matcher_predicate` after its call of `evaluate`.
pub verify_bindings : List Binding → Polarity → Option FactRef → VerifierOutcome
unfolding check_cited
verify_bindings bs polarity cited_fact =
    if is_empty bs
    then (if is_negative polarity
        then record {
          outcome = verified;
          fact = none;
          unresolved_attrs = [];
          reason = absence_confirmed;
        }
        else record { outcome = unavailable; fact = none; unresolved_attrs = []; reason = no_fact })
    else if not (is_empty (first_attrs bs))
    then record {
      outcome = unsupported;
      fact = none;
      unresolved_attrs = first_attrs bs;
      reason = attributes_unverifiable (length bs) (first_attrs bs);
    }
    else if is_negative polarity
    then record {
      outcome = failed;
      fact = first_fact bs;
      unresolved_attrs = [];
      reason = absence_contradicted (length bs);
    }
    else check_cited bs cited_fact

-- `dyn Verifier`: its `verify`.
abbrev pub Verifier : Type 0
Verifier = Trace → TraceIndex → CompiledPredicate → Polarity → Option FactRef → VerifierOutcome

unfoldable pub verify_via_matcher_predicate : Verifier
unfolding verify_bindings
verify_via_matcher_predicate t index p polarity cited_fact =
    verify_bindings (evaluate t index p) polarity cited_fact

abbrev pub VerifierRegistry : Type 0
VerifierRegistry = List (String × Verifier)

unfoldable pub register : VerifierRegistry → String → Verifier → VerifierRegistry
register r kind v = map_insert kind v r

unfoldable pub get_verifier : VerifierRegistry → String → Option Verifier
get_verifier r kind = lookup kind r

-- `with_default_verifiers`; the six verifiers of verifiers.rs differ in their kind alone.
unfoldable pub default_verifiers : VerifierRegistry
unfolding register
default_verifiers =
    let v = verify_via_matcher_predicate in
    register
      (register
        (register (register (register (register [] "call" v) "storage" v) "value_flow" v)
          "token_transfer" v)
        "transaction" v)
      "log" v
