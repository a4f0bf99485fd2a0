-- ===== src/Matcher/Index/Reentrancy.antt =====
-- The forward pass marks exactly the calls that re-enter a strict ancestor's target.
use rootcause.Prelude.{
  ℕ, suc, ◌+◌, ◌<◌, ◌≡◌, refl, sym, ◌∙◌, ap, ◌⊎◌, inl, inr, ◌↔◌, true, Option, none, some, List, [],
  ◌∷◌, nat_Eq, list_Eq, contains, lookup, length, get_elem?, Member, All, All-get_elem?, arith,
  lt-length_of_get_elem?, Option-cases, Bool-cases, contains→Member, Member→contains,
  Member-insert_self, Member-insert_old, Member-insert_inv, ◌==◌,
}
use rootcause.Facts.Types.{CallId, Call, Address}
use rootcause.Facts.Arena.Valid.{WellFormed, ParentIsValid}
use rootcause.Facts.Arena.Ids.{IdsFrom, IdsFrom-get_elem?}
use rootcause.Facts.Trace.{Trace}
use rootcause.Matcher.Index.{
  collect_calls, strict_ancestor_targets, insert_target, mark, scan_calls, build_index,
  is_reentrant,
}
use rootcause.Matcher.Index.Calls.{lookup-collect_calls}

-- `x` is the target of a strict ancestor of the call at `i`.
pub data AncestorTarget (calls : List Call) : CallId → Address → Type 0 where
  direct :
      {i : CallId} {x : Address} (c d : Call) (p : CallId)
      → get_elem? calls i ≡ some c
      → c.parent ≡ some p
      → get_elem? calls p ≡ some d
      → d.to ≡ some x
      → AncestorTarget calls i x
  above :
      {i : CallId} {x : Address} (c : Call) (p : CallId)
      → get_elem? calls i ≡ some c
      → c.parent ≡ some p
      → AncestorTarget calls p x
      → AncestorTarget calls i x

-- The call at `i` re-enters the target of a strict ancestor.
abbrev pub Reenters : List Call → CallId → Type 0
Reenters calls i =
    (c : Call) × (x : Address) × (get_elem? calls i ≡ some c)
    × (c.to ≡ some x)
    × AncestorTarget calls i x

-- `targets` is the set of the targets of the strict ancestors of the call at `i`.
abbrev IsTargets : List Call → CallId → List Address → Type 0
IsTargets calls i targets = (x : Address) → Member x targets ↔ AncestorTarget calls i x

-- What the pass knows after its first `k` calls.
record Scanned (calls : List Call) (k : ℕ) (targets : List (CallId × List Address))
    (reentrant : List CallId) : Type 0 where
  known :
      (i : CallId) → i < k → (s : List Address) × (lookup i targets ≡ some s) × IsTargets calls i s
  sound : (i : CallId) → Member i reentrant → Reenters calls i
  complete : (i : CallId) → i < k → Reenters calls i → Member i reentrant

module _ (calls : List Call) (i : CallId) (c : Call) (at : get_elem? calls i ≡ some c) where
  parent_of :
      (d : Call) (p : CallId) → get_elem? calls i ≡ some d → d.parent ≡ some p → c.parent ≡ some p
  parent_of d p e h = let same : c ≡ d = cc in rw same h

  -- A call with a parent has the targets of the parent's ancestors, and the parent's own.
  AncestorTarget-inv :
      (p : CallId) (d : Call) (x : Address)
      → c.parent ≡ some p
      → get_elem? calls p ≡ some d
      → AncestorTarget calls i x
      → (d.to ≡ some x) ⊎ AncestorTarget calls p x
  AncestorTarget-inv p d x up there (direct c' d' p' at' up' there' to) =
      let up₂ = parent_of c' p' at' up' in
      let same_p : p' ≡ p = cc in
      let same_d : d' ≡ d = cc (ap (get_elem? calls) same_p) in inl (rw same_d at to)
  AncestorTarget-inv p d x up there (above c' p' at' up' rest) =
      let up₂ = parent_of c' p' at' up' in let same_p : p' ≡ p = cc in inr (rw same_p at rest)

  AncestorTarget-root : (x : Address) → c.parent ≡ none → AncestorTarget calls i x → ⊥
  AncestorTarget-root x top (direct c' d' p' at' up' there' to) = cc (parent_of c' p' at' up')
  AncestorTarget-root x top (above c' p' at' up' rest) = cc (parent_of c' p' at' up')

insert_target-Member :
    (to : Option Address) (s : List Address) (x : Address)
    → Member x (insert_target to s) ↔ ((to ≡ some x) ⊎ Member x s)
insert_target-Member none s x = (λ m. inr m, λ h. elim h [ inl e ↦ absurd (cc) | inr m ↦ m ])
insert_target-Member (some y) s x = (
  λ m. elim (Member-insert_inv y x s m) [ inl e ↦ inl (cc) | inr old ↦ inr old ],
  λ h. elim h [
    | inl e ↦ let same : y ≡ x = cc in rw same (Member-insert_self x s)
    | inr old ↦ Member-insert_old y x s old
  ],
)

strict_ancestor_targets-some :
    (m : List (CallId × Call)) (targets : List (CallId × List Address)) (up : Option CallId)
    (p : CallId) (d : Call) (s : List Address)
    → up ≡ some p
    → lookup p m ≡ some d
    → lookup p targets ≡ some s
    → strict_ancestor_targets m targets up ≡ insert_target d.to s
unfolding strict_ancestor_targets
strict_ancestor_targets-some m targets up p d s e by_id known =
    rw (e, strict_ancestor_targets, by_id, known)

mark-Member :
    (c : Call) (s : List Address) (reentrant : List CallId) (i : CallId)
    → Member i (mark c s reentrant)
    → Member i reentrant ⊎ ((i ≡ c.id) × (x : Address) × (c.to ≡ some x) × Member x s)
unfolding mark
mark-Member c s reentrant i m = elim (Option-cases c.to) [
  | inl no_target ↦ inl (rw (no_target, mark) at m)
  | inr (x, to) ↦ elim (Bool-cases (contains s x)) [
    | inl again ↦ elim (Member-insert_inv c.id i reentrant (rw (to, mark, again) at m)) [
      | inl same ↦ inr (same, x, to, contains→Member s x again)
      | inr old ↦ inl old
    ]
    | inr fresh ↦ inl (rw (to, mark, fresh) at m)
  ]
]

Member-mark_old :
    (c : Call) (s : List Address) (reentrant : List CallId) (i : CallId)
    → Member i reentrant
    → Member i (mark c s reentrant)
unfolding mark
Member-mark_old c s reentrant i m = elim (Option-cases c.to) [
  | inl no_target ↦ rw (no_target, mark) m
  | inr (x, to) ↦ elim (Bool-cases (contains s x)) [
    | inl again ↦ rw (to, mark, again) (Member-insert_old c.id i reentrant m)
    | inr fresh ↦ rw (to, mark, fresh) m
  ]
]

Member-mark_self :
    (c : Call) (s : List Address) (reentrant : List CallId) (x : Address)
    → c.to ≡ some x
    → Member x s
    → Member c.id (mark c s reentrant)
unfolding mark
Member-mark_self c s reentrant x to m =
    rw (to, mark, Member→contains s x m) (Member-insert_self c.id reentrant)

module _ (calls : List Call) (ids : IdsFrom 0 calls)
    (parents : All (ParentIsValid calls) calls) where
  id_at : (k : ℕ) (c : Call) → get_elem? calls k ≡ some c → c.id ≡ k
  id_at k c at = omega (arith, IdsFrom-get_elem? 0 calls k c ids at)

  found_by_id :
      (p : CallId) (d : Call)
      → get_elem? calls p ≡ some d
      → lookup p (collect_calls calls []) ≡ some d
  found_by_id p d there =
      let found = lookup-collect_calls 0 calls [] p d ids there in
      let same : 0 + p ≡ p = omega arith in rw same at found

  IsTargets-at :
      (k : ℕ) (targets : List (CallId × List Address)) (reentrant : List CallId) (c : Call)
      → Scanned calls k targets reentrant
      → get_elem? calls k ≡ some c
      → IsTargets calls k (strict_ancestor_targets (collect_calls calls []) targets c.parent)
  unfolding strict_ancestor_targets
  IsTargets-at k targets reentrant c inv at x = elim (Option-cases c.parent) [
    | inl top ↦
        rw (top, strict_ancestor_targets)
          (λ m. absurd m, λ a. absurd (AncestorTarget-root calls k c at x top a))
    | inr (p, up) ↦
        let (d, there, earlier, level) =
          All-get_elem? (ParentIsValid calls) calls k c parents at p up in
        let below : p < k = omega (arith, id_at k c at) in
        let (s, known, is_targets) = inv.known p below in
        rw (strict_ancestor_targets-some _ targets c.parent p d s up (found_by_id p d there) known)
          (
            λ m. elim ((insert_target-Member d.to s x).0 m) [
              | inl own ↦ direct c d p at up there own
              | inr higher ↦ above c p at up ((is_targets x).0 higher)
            ],
            λ a.
                (insert_target-Member d.to s x).1
                  (elim (AncestorTarget-inv calls k c at p d x up there a) [
                    | inl own ↦ inl own
                    | inr higher ↦ inr ((is_targets x).1 higher)
                  ]),
          )
  ]

  marked_at :
      (k : ℕ) (c : Call) (s : List Address) (reentrant : List CallId)
      → get_elem? calls k ≡ some c
      → IsTargets calls k s
      → Reenters calls k
      → Member c.id (mark c s reentrant)
  marked_at k c s reentrant at is_targets (d, x, at', to, ancestor) =
      let same : d ≡ c = cc in
      Member-mark_self c s reentrant x (rw same at to) ((is_targets x).1 ancestor)

  Scanned-step :
      (k : ℕ) (targets : List (CallId × List Address)) (reentrant : List CallId) (c : Call)
      (s : List Address)
      → get_elem? calls k ≡ some c
      → IsTargets calls k s
      → Scanned calls k targets reentrant
      → Scanned calls (suc k) ((c.id, s) ∷ targets) (mark c s reentrant)
  Scanned-step k targets reentrant c s at is_targets inv = record {
    known = λ i h. elim (Bool-cases (c.id == i)) [
      | inl here ↦ (
        s,
        ground arith,
        let same : k ≡ i = ground (arith, id_at k c at) in rw same at is_targets,
      )
      | inr other ↦
          let (s', known, is_targets') = inv.known i (ground (arith, id_at k c at)) in
          (s', ground arith, is_targets')
    ];
    sound = λ i m. elim (mark-Member c s reentrant i m) [
      | inl old ↦ inv.sound i old
      | inr (same, x, to, member) ↦
          let here : i ≡ k = same ∙ id_at k c at in rw here (c, x, at, to, (is_targets x).0 member)
    ];
    complete = λ i h r. elim (Bool-cases (i == k)) [
      | inl here ↦
          let same : i ≡ k = ground arith in
          let marked = marked_at k c s reentrant at is_targets (rw same at r) in
          rw (same ∙ sym (id_at k c at)) marked
      | inr other ↦ Member-mark_old c s reentrant i (inv.complete i (ground arith) r)
    ];
  }

  -- `cs` are the calls from position `k` on.
  scan :
      (k : ℕ) (targets : List (CallId × List Address)) (reentrant : List CallId) (cs : List Call)
      → ((j : ℕ) (c : Call) → get_elem? cs j ≡ some c → get_elem? calls (k + j) ≡ some c)
      → Scanned calls k targets reentrant
      → (targets' : List (CallId × List Address)) × Scanned calls
          (k + length cs)
          targets'
          (scan_calls (collect_calls calls []) targets reentrant cs)
  unfolding scan_calls
  scan k targets reentrant [] suffix inv =
      let same : k + 0 ≡ k = omega arith in (targets, rw same inv)
  scan k targets reentrant (c ∷ cs) suffix inv =
      let same : k + 0 ≡ k = omega arith in
      let at : get_elem? calls k ≡ some c = rw same at (suffix 0 c refl) in
      let s = strict_ancestor_targets (collect_calls calls []) targets c.parent in
      let next =
        Scanned-step k targets reentrant c s at (IsTargets-at k targets reentrant c inv at) inv in
      let further : k + suc (length cs) ≡ suc k + length cs = omega arith in
      rw further (
        scan (suc k) ((c.id, s) ∷ targets) (mark c s reentrant) cs
          (λ j d h.
            let shift : k + suc j ≡ suc k + j = omega arith in rw shift at (suffix (suc j) d h))
          next)

  scan-Scanned :
      (targets' : List (CallId × List Address)) × Scanned calls
        (length calls)
        targets'
        (scan_calls (collect_calls calls []) [] [] calls)
  scan-Scanned =
      let same : 0 + length calls ≡ length calls = omega arith in
      rw same at (
        scan 0 [] [] calls (λ j c h. let same : 0 + j ≡ j = omega arith in rw same h)
          (record {
            known = λ i h. absurd (omega arith);
            sound = λ i m. absurd m;
            complete = λ i h r. absurd (omega arith);
          }))

-- In a well-formed arena whose ids are positions, `is_reentrant` holds of exactly the calls whose
-- own target is the target of a strict ancestor.
pub is_reentrant_iff :
    (t : Trace) (id : CallId)
    → WellFormed t.arena
    → IdsFrom 0 t.arena.calls
    → (is_reentrant (build_index t) id ≡ true) ↔ Reenters t.arena.calls id
unfolding is_reentrant build_index
is_reentrant_iff t id w ids =
    let calls = t.arena.calls in
    let (targets, scanned) = scan-Scanned calls ids w.parents in
    (
      λ h. scanned.sound id (contains→Member _ id h),
      λ r. Member→contains _ id (scanned.complete id (lt-length_of_get_elem? calls id r.0 r.2) r),
    )
