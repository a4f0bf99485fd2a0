-- ===== src/Matcher/SameCall/Origin.antt =====
-- The bindings of a `same_call` group: each is a match of its clause, and those that `fill` adds
-- come from the target call.
use rootcause.Prelude.{
  ℕ, ◌≡◌, sym, ◌∙◌, inl, inr, Bool, true, some, List, [], ◌∷◌, ◌==◌, nat_Eq, option_Eq,
  option_eq_iff, lookup, map_insert, contains_key, find, head?, Member, Bool-cases, Option-cases,
  lookup-map_insert_inv, lookup-map_insert_self, lookup-map_insert_ne, nat_eq_iff, arith,
}
use rootcause.Facts.Types.{CallId}
use rootcause.Facts.Trace.{Trace}
use rootcause.Dsl.Ir.{EvidenceRef}
use rootcause.Matcher.Binding.{Binding}
use rootcause.Matcher.Identity.{producing_call}
use rootcause.Matcher.SameCall.{Bindings, matches_at, preset, fill}

-- Every binding is one of its clause's matches.
abbrev pub FromMatches : List (List Binding) → Bindings → Type 0
FromMatches m bindings =
    (idx : ℕ) (b : Binding) → lookup idx bindings ≡ some b → Member b (matches_at m idx)

pub FromMatches-map_insert :
    (m : List (List Binding)) (bindings : Bindings) (idx : ℕ) (b : Binding)
    → FromMatches m bindings
    → Member b (matches_at m idx)
    → FromMatches m (map_insert idx b bindings)
FromMatches-map_insert m bindings idx b from here j c h =
    elim (lookup-map_insert_inv idx j b c bindings h) [
      | inl (same, is_b) ↦ rw (← same, ← is_b) here
      | inr old ↦ from j c old
    ]

find-Member :
    (p : Binding → Bool) (xs : List Binding) (b : Binding)
    → find p xs ≡ some b
    → Member b xs × (p b ≡ true)
find-Member p [] b h = absurd (cc)
find-Member p (x ∷ xs) b h = elim (Bool-cases (p x)) [
  | inl holds ↦ let same : x ≡ b = ground arith in (inl (sym same), rw (← same) holds)
  | inr fails ↦ let (m, holds) = find-Member p xs b (ground arith) in (inr m, holds)
]

pub head?-Member : (xs : List Binding) (b : Binding) → head? xs ≡ some b → Member b xs
head?-Member [] b h = absurd (cc)
head?-Member (x ∷ xs) b h = inl (cc)

-- Every binding of the map was produced by the call.
abbrev pub ProducedBy : Trace → CallId → Bindings → Type 0
ProducedBy t id bindings =
    (idx : ℕ) (b : Binding) → lookup idx bindings ≡ some b → producing_call t b.fact ≡ some id

-- Every one of the members is bound.
abbrev pub BindsAll : List EvidenceRef → Bindings → Type 0
BindsAll members bindings =
    (j : EvidenceRef) → Member j members → (b : Binding) × (lookup j bindings ≡ some b)

pub ProducedBy-map_insert :
    (t : Trace) (id : CallId) (bindings : Bindings) (idx : ℕ) (b : Binding)
    → ProducedBy t id bindings
    → producing_call t b.fact ≡ some id
    → ProducedBy t id (map_insert idx b bindings)
ProducedBy-map_insert t id bindings idx b from here j c h =
    elim (lookup-map_insert_inv idx j b c bindings h) [
      | inl (same, is_b) ↦ rw (← is_b) here
      | inr old ↦ from j c old
    ]

module _ (m : List (List Binding)) (anchor_idx : ℕ) (anchor_binding : Binding)
    (sequence_bindings : Bindings) (anchored : Member anchor_binding (matches_at m anchor_idx))
    (sequenced : FromMatches m sequence_bindings) where
  pub preset-FromMatches :
      (members : List EvidenceRef) (resolved : Bindings)
      → FromMatches m resolved
      → FromMatches m (preset anchor_idx anchor_binding sequence_bindings members resolved)
  unfolding preset
  preset-FromMatches [] resolved from = from
  preset-FromMatches (idx ∷ members) resolved from = elim (Bool-cases (idx == anchor_idx)) [
    | inl is_anchor ↦
        rw (is_anchor, preset)
          (preset-FromMatches members (map_insert idx anchor_binding resolved) (
            FromMatches-map_insert m resolved idx anchor_binding from
              (rw ((nat_eq_iff idx anchor_idx).0 is_anchor) anchored)))
    | inr other ↦ elim (Option-cases (lookup idx sequence_bindings)) [
      | inl unbound ↦ rw (other, unbound, preset) (preset-FromMatches members resolved from)
      | inr (b, bound) ↦
          rw (other, bound, preset)
            (preset-FromMatches members (map_insert idx b resolved)
              (FromMatches-map_insert m resolved idx b from (sequenced idx b bound)))
    ]
  ]

module _ (t : Trace) (m : List (List Binding)) (target : CallId) where
  pub fill-FromMatches :
      (members : List EvidenceRef) (resolved result : Bindings)
      → FromMatches m resolved
      → fill t target m members resolved ≡ some result
      → FromMatches m result
  unfolding fill
  fill-FromMatches [] resolved result from h = let same : resolved ≡ result = cc in rw (← same) from
  fill-FromMatches (idx ∷ members) resolved result from h =
      elim (Bool-cases (contains_key resolved idx)) [
        | inl bound ↦ fill-FromMatches members resolved result from (rw (bound, fill) at h)
        | inr free ↦
            elim (Option-cases
              (find (λ (b : Binding). producing_call t b.fact == some target) (matches_at m idx))) [
                | inl no_match ↦ absurd (let stuck = rw (free, no_match, fill) at h in cc)
                | inr (b, found) ↦
                    fill-FromMatches members (map_insert idx b resolved) result
                      (FromMatches-map_insert m resolved idx b from
                        (find-Member _ (matches_at m idx) b found).0)
                      (rw (free, found, fill) at h)
              ]
      ]

  pub fill-ProducedBy :
      (members : List EvidenceRef) (resolved result : Bindings)
      → ProducedBy t target resolved
      → fill t target m members resolved ≡ some result
      → ProducedBy t target result
  unfolding fill
  fill-ProducedBy [] resolved result from h = let same : resolved ≡ result = cc in rw (← same) from
  fill-ProducedBy (idx ∷ members) resolved result from h =
      elim (Bool-cases (contains_key resolved idx)) [
        | inl bound ↦ fill-ProducedBy members resolved result from (rw (bound, fill) at h)
        | inr free ↦
            elim (Option-cases
              (find (λ (b : Binding). producing_call t b.fact == some target) (matches_at m idx))) [
                | inl no_match ↦ absurd (let stuck = rw (free, no_match, fill) at h in cc)
                | inr (b, found) ↦
                    let (member, made) = find-Member _ (matches_at m idx) b found in
                    fill-ProducedBy members (map_insert idx b resolved) result
                      (ProducedBy-map_insert t target resolved idx b from
                        ((option_eq_iff (producing_call t b.fact) (some target)).0 made))
                      (rw (free, found, fill) at h)
              ]
      ]

  -- What is bound stays bound as it is.
  fill-keeps :
      (members : List EvidenceRef) (resolved result : Bindings) (j : ℕ) (c : Binding)
      → lookup j resolved ≡ some c
      → fill t target m members resolved ≡ some result
      → lookup j result ≡ some c
  unfolding fill
  fill-keeps [] resolved result j c at h = let same : resolved ≡ result = cc in rw (← same) at
  fill-keeps (idx ∷ members) resolved result j c at h =
      elim (Bool-cases (contains_key resolved idx)) [
        | inl bound ↦ fill-keeps members resolved result j c at (rw (bound, fill) at h)
        | inr free ↦
            elim (Option-cases
              (find (λ (b : Binding). producing_call t b.fact == some target) (matches_at m idx))) [
                | inl no_match ↦ absurd (let stuck = rw (free, no_match, fill) at h in cc)
                | inr (b, found) ↦
                    fill-keeps members (map_insert idx b resolved) result j c
                      (elim (Bool-cases (idx == j)) [
                        | inl same ↦ absurd (
                            let key = (nat_eq_iff idx j).0 same in
                            let taken : contains_key resolved idx ≡ true =
                              rw key (rw (at, contains_key)) in
                            cc)
                        | inr other ↦ lookup-map_insert_ne idx j b resolved other ∙ at
                      ])
                      (rw (free, found, fill) at h)
              ]
      ]

  bound_of_key :
      (resolved : Bindings) (idx : ℕ)
      → contains_key resolved idx ≡ true
      → (b : Binding) × (lookup idx resolved ≡ some b)
  bound_of_key resolved idx h = elim (Option-cases (lookup idx resolved)) [
    | inl free ↦ absurd (let no_key = rw (free, contains_key) at h in cc)
    | inr found ↦ found
  ]

  pub fill-binds :
      (members : List EvidenceRef) (resolved result : Bindings) (j : ℕ)
      → Member j members
      → fill t target m members resolved ≡ some result
      → (b : Binding) × (lookup j result ≡ some b)
  unfolding fill
  fill-binds [] resolved result j mem h = absurd mem
  fill-binds (idx ∷ members) resolved result j mem h =
      elim (Bool-cases (contains_key resolved idx)) [
        | inl bound ↦
            let rest = rw (bound, fill) at h in
            elim mem [
              | inl here ↦
                  let (b, at) = bound_of_key resolved idx bound in
                  (b, rw here (fill-keeps members resolved result idx b at rest))
              | inr later ↦ fill-binds members resolved result j later rest
            ]
        | inr free ↦
            elim (Option-cases
              (find (λ (b : Binding). producing_call t b.fact == some target) (matches_at m idx))) [
                | inl no_match ↦ absurd (let stuck = rw (free, no_match, fill) at h in cc)
                | inr (b, found) ↦
                    let rest = rw (free, found, fill) at h in
                    elim mem [
                      | inl here ↦ (
                        b,
                        rw here (
                            fill-keeps members (map_insert idx b resolved) result idx b
                              (lookup-map_insert_self idx b resolved) rest),
                      )
                      | inr later ↦
                          fill-binds members (map_insert idx b resolved) result j later rest
                    ]
              ]
      ]

pub lookup-Member :
    (bindings : Bindings) (idx : ℕ) (b : Binding)
    → lookup idx bindings ≡ some b
    → Member (idx, b) bindings
lookup-Member [] idx b h = absurd (cc)
lookup-Member ((j, c) ∷ bindings) idx b h = elim (Bool-cases (j == idx)) [
  | inl here ↦
      let same : c ≡ b = ground arith in let key : j ≡ idx = (nat_eq_iff j idx).0 here in inl (cc)
  | inr later ↦ inr (lookup-Member bindings idx b (ground arith))
]
