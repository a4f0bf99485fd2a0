-- ===== src/Matcher/SameCall/Correlated.antt =====
-- A `same_call` group that resolves is bound as a whole, to facts that one call produced.
use rootcause.Prelude.{
  ℕ, ◌≡◌, refl, ap, ◌∙◌, inl, inr, Option, none, some, List, [], ◌∷◌, ◌==◌, nat_Eq, option_Eq,
  map_insert, head?, Member, Bool-cases, Option-cases, nat_eq_iff,
}
use rootcause.Facts.Types.{CallId}
use rootcause.Facts.Trace.{Trace}
use rootcause.Dsl.Ir.{EvidenceRef, CompiledSameCall}
use rootcause.Matcher.Binding.{Binding}
use rootcause.Matcher.Identity.{producing_call}
use rootcause.Matcher.SameCall.{
  Bindings, matches_at, preset, shared_call, min_index, pick_target, fill, choose_target,
  resolve_same_call,
}
use rootcause.Matcher.SameCall.Origin.{
  FromMatches, FromMatches-map_insert, head?-Member, ProducedBy, BindsAll, ProducedBy-map_insert,
  preset-FromMatches, fill-FromMatches, fill-ProducedBy, fill-binds, lookup-Member,
}

module _ (t : Trace) where
  shared_call-some :
      (id target : CallId) (resolved : Bindings)
      → shared_call t (some target) resolved ≡ some (some id)
      → (target ≡ id)
        × ((idx : ℕ) (b : Binding) → Member (idx, b) resolved → producing_call t b.fact ≡ some id)
  unfolding shared_call
  shared_call-some id target [] h = (cc, λ idx b mem. absurd mem)
  shared_call-some id target ((j, c) ∷ resolved) h = elim (Option-cases (producing_call t c.fact)) [
    | inl lost ↦ absurd (let stuck = rw (lost, shared_call) at h in cc)
    | inr (made, by) ↦ elim (Bool-cases (target == made)) [
      | inl same ↦
          let (is_id, rest) =
            shared_call-some id target resolved (rw (by, shared_call, same) at h) in
          (
            is_id,
            λ idx b mem. elim mem [
              | inl e ↦
                  let is_c : b ≡ c = ap (λ (q : ℕ × Binding). q.1) e in
                  let is_made : target ≡ made = (nat_eq_iff target made).0 same in rw is_c (cc)
              | inr later ↦ rest idx b later
            ],
          )
      | inr differ ↦ absurd (let stuck = rw (by, shared_call, differ) at h in cc)
    ]
  ]

  shared_call-ProducedBy :
      (id : CallId) (resolved : Bindings)
      → shared_call t none resolved ≡ some (some id)
      → ProducedBy t id resolved
  unfolding shared_call
  shared_call-ProducedBy id [] h idx b at = absurd (cc)
  shared_call-ProducedBy id ((j, c) ∷ resolved) h idx b at =
      elim (Option-cases (producing_call t c.fact)) [
        | inl lost ↦ absurd (let stuck = rw (lost, shared_call) at h in cc)
        | inr (made, by) ↦
            let (is_id, rest) = shared_call-some id made resolved (rw (by, shared_call) at h) in
            elim (lookup-Member ((j, c) ∷ resolved) idx b at) [
              | inl e ↦
                  let is_c : b ≡ c = ap (λ (q : ℕ × Binding). q.1) e in rw is_c (by ∙ ap some is_id)
              | inr later ↦ rest idx b later
            ]
      ]

  shared_call-some_ne_none :
      (target : CallId) (resolved : Bindings) → shared_call t (some target) resolved ≡ some none → ⊥
  unfolding shared_call
  shared_call-some_ne_none target [] h = cc
  shared_call-some_ne_none target ((j, c) ∷ resolved) h =
      elim (Option-cases (producing_call t c.fact)) [
        | inl lost ↦ let stuck = rw (lost, shared_call) at h in cc
        | inr (made, by) ↦ elim (Bool-cases (target == made)) [
          | inl same ↦ shared_call-some_ne_none target resolved (rw (by, shared_call, same) at h)
          | inr differ ↦ let stuck = rw (by, shared_call, differ) at h in cc
        ]
      ]

  -- No target at the end means that nothing was bound.
  shared_call-none : (resolved : Bindings) → shared_call t none resolved ≡ some none → resolved ≡ []
  unfolding shared_call
  shared_call-none [] h = refl
  shared_call-none ((j, c) ∷ resolved) h = elim (Option-cases (producing_call t c.fact)) [
    | inl lost ↦ absurd (let stuck = rw (lost, shared_call) at h in cc)
    | inr (made, by) ↦ absurd (shared_call-some_ne_none made resolved (rw (by, shared_call) at h))
  ]

  pick_target_sound :
      (members : List EvidenceRef) (m : List (List Binding)) (resolved bound : Bindings)
      (target : CallId)
      → FromMatches m resolved
      → resolved ≡ []
      → pick_target t members m resolved ≡ some (target, bound)
      → FromMatches m bound × ProducedBy t target bound
  unfolding pick_target
  pick_target_sound members m resolved bound target from empty h =
      elim (Option-cases (min_index members)) [
        | inl no_member ↦ absurd (let stuck = rw (no_member, pick_target) at h in cc)
        | inr (first, least) ↦ elim (Option-cases (head? (matches_at m first))) [
          | inl no_match ↦ absurd (let stuck = rw (least, no_match, pick_target) at h in cc)
          | inr (b, top) ↦ elim (Option-cases (producing_call t b.fact)) [
            | inl lost ↦ absurd (let stuck = rw (least, top, lost, pick_target) at h in cc)
            | inr (id, made) ↦
                let picked : ◌≡◌ {A = Option (CallId × Bindings)}
                    (some (id, map_insert first b resolved)) (some (target, bound)) =
                  rw (least, top, made, pick_target) at h in
                let is_id : id ≡ target = cc in
                let is_map : map_insert first b resolved ≡ bound = cc in
                let none_yet : ProducedBy t id resolved = rw empty (λ idx c e.
                  absurd (let impossible : ◌≡◌ {A = Option Binding} none (some c) = e in cc)) in
                rw (← is_map, ← is_id)
                  (
                    FromMatches-map_insert m resolved first b from
                        (head?-Member (matches_at m first) b top),
                    ProducedBy-map_insert t id resolved first b none_yet made,
                  )
          ]
        ]
      ]

  choose_target_sound :
      (members : List EvidenceRef) (m : List (List Binding)) (resolved bound : Bindings)
      (target : CallId)
      → FromMatches m resolved
      → choose_target t members m resolved ≡ some (target, bound)
      → FromMatches m bound × ProducedBy t target bound
  unfolding choose_target pick_target
  choose_target_sound members m resolved bound target from h =
      elim (Option-cases (shared_call t none resolved)) [
        | inl clash ↦ absurd (let stuck = rw (clash, choose_target) at h in cc)
        | inr (some id, shared) ↦
            let made = rw (shared, choose_target) at h in
            let same_id : id ≡ target = cc in
            let same_map : resolved ≡ bound = cc in
            rw (← same_map, ← same_id) (from, shared_call-ProducedBy id resolved shared)
        | inr (none, shared) ↦
            pick_target_sound members m resolved bound target from
              (shared_call-none resolved shared) (rw (shared, choose_target) at h)
      ]

-- If the anchor and the sequence are bound to matches of their clauses, a same-call group that
-- resolves binds every member, each bound clause to one of its matches, and one call produced every
-- bound fact.
pub resolve_same_call-Correlated :
    (t : Trace) (same_call : CompiledSameCall) (m : List (List Binding)) (anchor_idx : ℕ)
    (anchor_binding : Binding) (sequence_bindings result : Bindings)
    → Member anchor_binding (matches_at m anchor_idx)
    → FromMatches m sequence_bindings
    → resolve_same_call t same_call m anchor_idx anchor_binding sequence_bindings ≡ some result
    → FromMatches m result
      × BindsAll same_call.members result
      × (target : CallId) × ProducedBy t target result
unfolding resolve_same_call
resolve_same_call-Correlated t sc m anchor_idx anchor_binding seq result anchored sequenced h =
    let resolved = preset anchor_idx anchor_binding seq sc.members [] in
    let from =
      preset-FromMatches m anchor_idx anchor_binding seq anchored sequenced sc.members []
        (λ idx b e. absurd (let impossible : ◌≡◌ {A = Option Binding} none (some b) = e in cc)) in
    elim (Option-cases (choose_target t sc.members m resolved)) [
      | inl no_target ↦ absurd (let stuck = rw (no_target, resolve_same_call) at h in cc)
      | inr ((target, bound), chosen) ↦
          let filled : fill t target m sc.members bound ≡ some result =
            rw (chosen, resolve_same_call) at h in
          let (from_bound, produced) =
            choose_target_sound t sc.members m resolved bound target from chosen in
          (
            fill-FromMatches t m target sc.members bound result from_bound filled,
            λ j mem. fill-binds t m target sc.members bound result j mem filled,
            target,
            fill-ProducedBy t m target sc.members bound result produced filled,
          )
    ]
