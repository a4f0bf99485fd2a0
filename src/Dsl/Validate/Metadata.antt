-- ===== src/Dsl/Validate/Metadata.antt =====
-- validate.rs: the version and the metadata entries.
pub mod Valid
use rootcause.Prelude.{
  Bool, true, false, not, ◌||◌, Option, none, some, List, [], ◌∷◌, ◌++◌, String, string_Eq, ◌==◌,
  contains, lookup, if◌then◌else◌,
}
use rootcause.Prelude.Int.{pos, leb_int}
use rootcause.Dsl.Ast.{
  Span, SpannedString, MetadataValue, ident_metadata, str_metadata, list_metadata, MetadataEntry,
  PatternAst,
}
use rootcause.Dsl.Schema.{severity_values}
use rootcause.Dsl.Diagnostics.{
  Diagnostics, error_at, warning_at, version_not_positive, duplicate_key, missing_family,
  missing_severity, family_not_identifier, severity_not_identifier, unknown_severity,
  not_a_string_list, unknown_key,
}

unfoldable pub validate_version : PatternAst → Diagnostics
validate_version p =
    if leb_int (pos 1) p.version.value
    then []
    else error_at p.version.span (version_not_positive p.version.value) ∷ []

unfoldable pub validate_severity_value : MetadataValue → Span → Diagnostics
validate_severity_value (ident_metadata ident) span =
    if contains severity_values ident.value
    then []
    else error_at ident.span (unknown_severity ident.value) ∷ []
validate_severity_value _ span = error_at span severity_not_identifier ∷ []

abbrev pub validate_family_value : MetadataValue → Span → Diagnostics
validate_family_value (ident_metadata ident) span = []
validate_family_value _ span = error_at span family_not_identifier ∷ []

abbrev pub validate_list_value : String → MetadataValue → Span → Diagnostics
validate_list_value key (list_metadata items) span = []
validate_list_value key _ span = error_at span (not_a_string_list key) ∷ []

unfoldable pub validate_metadata_entry : MetadataEntry → Diagnostics
unfolding validate_severity_value
validate_metadata_entry entry =
    let key = entry.key.value in
    if key == "family"
    then validate_family_value entry.value entry.span
    else if key == "severity"
    then validate_severity_value entry.value entry.span
    else if key == "tags" || key == "references"
    then validate_list_value key entry.value entry.span
    else warning_at entry.key.span (unknown_key key) ∷ []

-- The loop over the entries, with the keys seen so far and where.
unfoldable pub validate_entries : List (String × Span) → List MetadataEntry → Diagnostics
unfolding validate_metadata_entry
validate_entries seen [] = []
validate_entries seen (entry ∷ entries) = elim (lookup entry.key.value seen) [
  | some first ↦
      error_at entry.key.span (duplicate_key entry.key.value first) ∷ validate_entries seen entries
  | none ↦
      validate_metadata_entry entry
      ++ validate_entries ((entry.key.value, entry.key.span) ∷ seen) entries
]

-- `has_family` and `has_severity` after the loop: an entry of that key was seen.
abbrev pub has_key : String → List MetadataEntry → Bool
has_key key [] = false
has_key key (entry ∷ entries) = entry.key.value == key || has_key key entries

unfoldable pub validate_metadata : PatternAst → Diagnostics
unfolding validate_version validate_entries
validate_metadata p =
    validate_version p
    ++ (validate_entries [] p.metadata
        ++ ((if has_key "family" p.metadata then [] else error_at p.span missing_family ∷ [])
            ++ (if has_key "severity" p.metadata
                then []
                else error_at p.span missing_severity ∷ [])))
