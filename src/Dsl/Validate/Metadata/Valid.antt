-- ===== src/Dsl/Validate/Metadata/Valid.antt =====
-- Which metadata validation accepts.
use rootcause.Prelude.{
  ◌≡◌, refl, sym, ◌∙◌, ◌↔◌, inl, inr, true, false, none, some, List, [], ◌∷◌, String, string_Eq,
  ◌==◌, contains, lookup, map, Member, All, Bool-cases, Option-cases, if◌then◌else◌,
}
use rootcause.Prelude.Int.{pos, leb_int}
use rootcause.Dsl.Ast.{
  Span, SpannedString, MetadataValue, ident_metadata, str_metadata, list_metadata, MetadataEntry,
  PatternAst,
}
use rootcause.Dsl.Schema.{severity_values}
use rootcause.Dsl.Diagnostics.{
  missing_family, missing_severity, version_not_positive, duplicate_key, has_errors,
  unknown_severity,
}
use rootcause.Dsl.Validate.Clean.{
  IsClean, NoRepeat, IsClean-both, IsClean-nil, error-IsClean, unless_iff, contains_iff, ↔_trans,
}
use rootcause.Dsl.Validate.Metadata.{
  validate_version, validate_severity_value, validate_family_value, validate_list_value,
  validate_metadata_entry, validate_entries, has_key, validate_metadata,
}

abbrev pub key_of : MetadataEntry → String
key_of entry = entry.key.value

-- The shape that each known key asks of its value.
abbrev pub IsIdentifier : MetadataValue → Type 0
IsIdentifier v = (s : SpannedString) × (v ≡ ident_metadata s)

abbrev pub IsSeverity : MetadataValue → Type 0
IsSeverity v = (s : SpannedString) × (v ≡ ident_metadata s) × Member s.value severity_values

abbrev pub IsStringList : MetadataValue → Type 0
IsStringList v = (items : List SpannedString) × (v ≡ list_metadata items)

pub record EntryIsValid (entry : MetadataEntry) : Type 0 where
  pub family : key_of entry ≡ "family" → IsIdentifier entry.value
  pub severity : key_of entry ≡ "severity" → IsSeverity entry.value
  pub tags : key_of entry ≡ "tags" → IsStringList entry.value
  pub references : key_of entry ≡ "references" → IsStringList entry.value

pub record MetadataIsValid (p : PatternAst) : Type 0 where
  pub version : leb_int (pos 1) p.version.value ≡ true
  pub keys : NoRepeat [] (map key_of p.metadata)
  pub values : All EntryIsValid p.metadata
  pub has_family : Member "family" (map key_of p.metadata)
  pub has_severity : Member "severity" (map key_of p.metadata)

family_iff :
    (v : MetadataValue) (span : Span) → IsClean (validate_family_value v span) ↔ IsIdentifier v
family_iff (ident_metadata s) span = (λ h. (s, refl), λ h. IsClean-nil)
family_iff (str_metadata s) span = (λ h. absurd (error-IsClean span _ [] h), λ (s, e). absurd (cc))
family_iff (list_metadata s) span = (λ h. absurd (error-IsClean span _ [] h), λ (s, e). absurd (cc))

list_iff :
    (key : String) (v : MetadataValue) (span : Span)
    → IsClean (validate_list_value key v span) ↔ IsStringList v
list_iff key (list_metadata s) span = (λ h. (s, refl), λ h. IsClean-nil)
list_iff key (str_metadata s) span =
    (λ h. absurd (error-IsClean span _ [] h), λ (s, e). absurd (cc))
list_iff key (ident_metadata s) span =
    (λ h. absurd (error-IsClean span _ [] h), λ (s, e). absurd (cc))

level_iff :
    (v : MetadataValue) (span : Span) → IsClean (validate_severity_value v span) ↔ IsSeverity v
unfolding validate_severity_value
level_iff (str_metadata s) span =
    (λ h. absurd (error-IsClean span _ [] h), λ (s, e, m). absurd (cc))
level_iff (list_metadata s) span =
    (λ h. absurd (error-IsClean span _ [] h), λ (s, e, m). absurd (cc))
level_iff (ident_metadata s) span =
    let (known, clean) =
      unless_iff (contains severity_values s.value) s.span (unknown_severity s.value) in
    let (listed, found) = contains_iff severity_values s.value in
    (
      λ h. (s, refl, listed (known h)),
      λ (r, e, m). clean (found (let same : r ≡ s = cc in rw (← same) m)),
    )

apart : (key a b : String) → (a == b) ≡ false → key ≡ a → key ≡ b → ⊥
apart key a b other e d = let same = (string_Eq.eqb_iff a b).1 (sym e ∙ d) in cc

is_key : (key a : String) → (key == a) ≡ true → key ≡ a
is_key key a = (string_Eq.eqb_iff key a).0

not_key : (key a : String) → (key == a) ≡ false → key ≡ a → ⊥
not_key key a other e = let same = (string_Eq.eqb_iff key a).1 e in cc

entry_iff : (entry : MetadataEntry) → IsClean (validate_metadata_entry entry) ↔ EntryIsValid entry
unfolding validate_metadata_entry has_errors
entry_iff entry =
    let key = key_of entry in
    elim (Bool-cases (key == "family")) [
      | inl k1 ↦
          let e = is_key key "family" k1 in
          let (sound, complete) = family_iff entry.value entry.span in
          (
            λ h. record {
              family = λ d. sound (rw (k1, validate_metadata_entry) at h);
              severity = λ d. absurd (apart key "family" "severity" refl e d);
              tags = λ d. absurd (apart key "family" "tags" refl e d);
              references = λ d. absurd (apart key "family" "references" refl e d);
            },
            λ v. rw (k1, validate_metadata_entry) (complete (v.family e)),
          )
      | inr k1 ↦ elim (Bool-cases (key == "severity")) [
        | inl k2 ↦
            let e = is_key key "severity" k2 in
            let (sound, complete) = level_iff entry.value entry.span in
            (
              λ h. record {
                family = λ d. absurd (not_key key "family" k1 d);
                severity = λ d. sound (rw (k1, k2, validate_metadata_entry) at h);
                tags = λ d. absurd (apart key "severity" "tags" refl e d);
                references = λ d. absurd (apart key "severity" "references" refl e d);
              },
              λ v. rw (k1, k2, validate_metadata_entry) (complete (v.severity e)),
            )
        | inr k2 ↦ elim (Bool-cases (key == "tags")) [
          | inl k3 ↦
              let e = is_key key "tags" k3 in
              let (sound, complete) = list_iff key entry.value entry.span in
              (
                λ h. record {
                  family = λ d. absurd (not_key key "family" k1 d);
                  severity = λ d. absurd (not_key key "severity" k2 d);
                  tags = λ d. sound (rw (k1, k2, k3, validate_metadata_entry) at h);
                  references = λ d. absurd (apart key "tags" "references" refl e d);
                },
                λ v. rw (k1, k2, k3, validate_metadata_entry) (complete (v.tags e)),
              )
          | inr k3 ↦ elim (Bool-cases (key == "references")) [
            | inl k4 ↦
                let e = is_key key "references" k4 in
                let (sound, complete) = list_iff key entry.value entry.span in
                (
                  λ h. record {
                    family = λ d. absurd (not_key key "family" k1 d);
                    severity = λ d. absurd (not_key key "severity" k2 d);
                    tags = λ d. absurd (not_key key "tags" k3 d);
                    references = λ d. sound (rw (k1, k2, k3, k4, validate_metadata_entry) at h);
                  },
                  λ v. rw (k1, k2, k3, k4, validate_metadata_entry) (complete (v.references e)),
                )
            | inr k4 ↦ (
              λ h. record {
                family = λ d. absurd (not_key key "family" k1 d);
                severity = λ d. absurd (not_key key "severity" k2 d);
                tags = λ d. absurd (not_key key "tags" k3 d);
                references = λ d. absurd (not_key key "references" k4 d);
              },
              λ v. rw (k1, k2, k3, k4, validate_metadata_entry, has_errors) refl,
            )
          ]
        ]
      ]
    ]

abbrev keys_seen : List (String × Span) → List String
keys_seen = map (λ (s : String × Span). s.0)

lookup-seen_some :
    (key : String) (seen : List (String × Span)) (first : Span)
    → lookup key seen ≡ some first
    → contains (keys_seen seen) key ≡ true
lookup-seen_some key [] first h = absurd (cc)
lookup-seen_some key ((k, span) ∷ seen) first h = elim (Bool-cases (k == key)) [
  | inl same ↦ rw same refl
  | inr other ↦ rw other (lookup-seen_some key seen first (rw other at h))
]

lookup-seen_none :
    (key : String) (seen : List (String × Span))
    → lookup key seen ≡ none
    → contains (keys_seen seen) key ≡ false
lookup-seen_none key [] h = refl
lookup-seen_none key ((k, span) ∷ seen) h = elim (Bool-cases (k == key)) [
  | inl same ↦ absurd (let stuck = rw same at h in cc)
  | inr other ↦ rw other (lookup-seen_none key seen (rw other at h))
]

entries_iff :
    (seen : List (String × Span)) (entries : List MetadataEntry)
    → IsClean (validate_entries seen entries)
      ↔ (NoRepeat (keys_seen seen) (map key_of entries) × All EntryIsValid entries)
unfolding validate_entries
entries_iff seen [] = (λ h. (tt, tt), λ h. IsClean-nil)
entries_iff seen (entry ∷ entries) = elim (Option-cases (lookup (key_of entry) seen)) [
  | inr (first, known) ↦
      let there = lookup-seen_some (key_of entry) seen first known in
      (
        λ h. absurd (
            error-IsClean entry.key.span (duplicate_key (key_of entry) first)
              (validate_entries seen entries) (rw (known, validate_entries) at h)),
        λ ((fresh, keys), values). absurd (cc),
      )
  | inl new ↦
      let absent = lookup-seen_none (key_of entry) seen new in
      let later = (entry.key.value, entry.key.span) ∷ seen in
      let (sound, complete) =
        IsClean-both (validate_metadata_entry entry) (validate_entries later entries)
          (entry_iff entry) (entries_iff later entries) in
      (
        λ h.
            let (one, (keys, values)) = sound (rw (new, validate_entries) at h) in
            ((absent, keys), (one, values)),
        λ ((fresh, keys), (one, values)).
            rw (new, validate_entries) (complete (one, (keys, values))),
      )
]

has_key_iff :
    (key : String) (entries : List MetadataEntry)
    → (has_key key entries ≡ true) ↔ Member key (map key_of entries)
has_key_iff key [] = (λ h. absurd (cc), λ m. absurd m)
has_key_iff key (entry ∷ entries) =
    let (sound, complete) = has_key_iff key entries in
    elim (Bool-cases (entry.key.value == key)) [
      | inl same ↦ (λ h. inl (sym (is_key (key_of entry) key same)), λ m. rw same refl)
      | inr other ↦ (
        λ h. inr (sound (rw other at h)),
        λ m. elim m [
          | inl e ↦ absurd (not_key (key_of entry) key other (sym e))
          | inr rest ↦ rw other (complete rest)
        ],
      )
    ]

-- The metadata is reported free of errors exactly if the version is positive, no key is repeated,
-- each known key has a value of its shape, and both mandatory keys are there.
pub validate_metadata-MetadataIsValid_iff :
    (p : PatternAst) → IsClean (validate_metadata p) ↔ MetadataIsValid p
unfolding validate_metadata validate_version
validate_metadata-MetadataIsValid_iff p =
    let version =
      unless_iff (leb_int (pos 1) p.version.value) p.version.span
        (version_not_positive p.version.value) in
    let family =
      ↔_trans (unless_iff (has_key "family" p.metadata) p.span missing_family)
        (has_key_iff "family" p.metadata) in
    let severity =
      ↔_trans (unless_iff (has_key "severity" p.metadata) p.span missing_severity)
        (has_key_iff "severity" p.metadata) in
    let (sound, complete) = IsClean-both (validate_version p) _ version (
      IsClean-both (validate_entries [] p.metadata) _ (entries_iff [] p.metadata)
        (IsClean-both (if has_key "family" p.metadata then [] else _) _ family severity)) in
    (
      λ h.
          let (v, ((keys, values), (f, s))) = sound h in
          record { version = v; keys = keys; values = values; has_family = f; has_severity = s },
      λ m. complete (m.version, ((m.keys, m.values), (m.has_family, m.has_severity))),
    )
