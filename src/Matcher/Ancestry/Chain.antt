-- ===== src/Matcher/Ancestry/Chain.antt =====
-- The walk up the parents ends, and answers whether some ancestor has the kind.
use rootcause.Prelude.{
  ℕ, zero, suc, ◌<◌, ◌≡◌, refl, ◌∙◌, sym, ap, ◌⊎◌, inl, inr, ◌↔◌, Bool, true, false, none, some,
  String, length, All-get_elem?, arith, lt-length_of_get_elem?, Option-cases, Bool-cases,
}
use rootcause.Facts.Types.{CallId, Call}
use rootcause.Facts.Arena.{FactArena, call}
use rootcause.Facts.Arena.Valid.{WellFormed, ParentIsValid}
use rootcause.Facts.Arena.Ids.{IdsFrom, IdsFrom-get_elem?}
use rootcause.Facts.Trace.{Trace}
use rootcause.Matcher.Ancestry.{call_kind_matches, ancestor_loop, has_ancestor_of_kind}

-- `id` is a strict ancestor of `start`: its parent, its parent's parent, and so on.
pub data IsAncestor (a : FactArena) (start : CallId) : CallId → Type 0 where
  parent :
      {id : CallId} (c : Call) → call a start ≡ some c → c.parent ≡ some id → IsAncestor a start id
  further :
      {id : CallId} (mid : CallId) (c : Call)
      → IsAncestor a start mid
      → call a mid ≡ some c
      → c.parent ≡ some id
      → IsAncestor a start id

-- Some strict ancestor of `start` has a kind of that name.
abbrev pub AncestorOfKind : FactArena → String → CallId → Type 0
AncestorOfKind a ident start =
    (id : CallId) × (c : Call) × IsAncestor a start id
    × (call a id ≡ some c)
    × (call_kind_matches c.kind ident ≡ true)

-- From `id` itself upwards.
data UpFrom (a : FactArena) (id : CallId) : CallId → Type 0 where
  here : {j : CallId} → j ≡ id → UpFrom a id j
  up :
      {j : CallId} (mid : CallId) (c : Call)
      → UpFrom a id mid
      → call a mid ≡ some c
      → c.parent ≡ some j
      → UpFrom a id j

abbrev KindFrom : FactArena → String → CallId → Type 0
KindFrom a ident id =
    (j : CallId) × (c : Call) × UpFrom a id j
    × (call a j ≡ some c)
    × (call_kind_matches c.kind ident ≡ true)

UpFrom-shift :
    {a : FactArena} {id p j : CallId} (c : Call)
    → call a id ≡ some c
    → c.parent ≡ some p
    → UpFrom a p j
    → UpFrom a id j
UpFrom-shift c at up_p (here e) = up _ c (here refl) at (up_p ∙ ap some (sym e))
UpFrom-shift c at up_p (up mid d chain at' up') = up mid d (UpFrom-shift c at up_p chain) at' up'

-- The first step up from `id`, or no step.
UpFrom-inv :
    {a : FactArena} {id j : CallId} (c : Call)
    → call a id ≡ some c
    → UpFrom a id j
    → (j ≡ id) ⊎ ((p : CallId) × (c.parent ≡ some p) × UpFrom a p j)
UpFrom-inv c at (here e) = inl e
UpFrom-inv {j = j} c at (up mid d chain at' up') = elim (UpFrom-inv c at chain) [
  | inl same ↦ let is_c : d ≡ c = cc in inr (j, rw is_c at up', here refl)
  | inr (p, up_p, rest) ↦ inr (p, up_p, up mid d rest at' up')
]

IsAncestor-UpFrom :
    {a : FactArena} {start p j : CallId} (c : Call)
    → call a start ≡ some c
    → c.parent ≡ some p
    → IsAncestor a start j
    → UpFrom a p j
IsAncestor-UpFrom c at up_p (parent d at' up') =
    let is_c : d ≡ c = cc in let up_j : c.parent ≡ some _ = rw is_c at up' in here (cc)
IsAncestor-UpFrom c at up_p (further mid d chain at' up') =
    up mid d (IsAncestor-UpFrom c at up_p chain) at' up'

UpFrom-IsAncestor :
    {a : FactArena} {start p j : CallId} (c : Call)
    → call a start ≡ some c
    → c.parent ≡ some p
    → UpFrom a p j
    → IsAncestor a start j
UpFrom-IsAncestor c at up_p (here e) = parent c at (up_p ∙ ap some (sym e))
UpFrom-IsAncestor c at up_p (up mid d chain at' up') =
    further mid d (UpFrom-IsAncestor c at up_p chain) at' up'

IsAncestor-root :
    {a : FactArena} {start j : CallId} (c : Call)
    → call a start ≡ some c
    → c.parent ≡ none
    → IsAncestor a start j
    → ⊥
IsAncestor-root c at top (parent d at' up') =
    let is_c : d ≡ c = cc in let up_c = rw is_c at up' in cc
IsAncestor-root c at top (further mid d chain at' up') = IsAncestor-root c at top chain

ancestor_loop-match :
    (fuel : ℕ) (a : FactArena) (ident : String) (id : CallId) (c : Call)
    → call a id ≡ some c
    → call_kind_matches c.kind ident ≡ true
    → ancestor_loop (suc fuel) a ident (some id) ≡ some true
unfolding ancestor_loop
ancestor_loop-match fuel a ident id c at kind = rw (ancestor_loop, at, kind)

ancestor_loop-climb :
    (fuel : ℕ) (a : FactArena) (ident : String) (id : CallId) (c : Call)
    → call a id ≡ some c
    → call_kind_matches c.kind ident ≡ false
    → ancestor_loop (suc fuel) a ident (some id) ≡ ancestor_loop fuel a ident c.parent
unfolding ancestor_loop
ancestor_loop-climb fuel a ident id c at kind = rw (ancestor_loop, at, kind)

ancestor_loop-root :
    (fuel : ℕ) (a : FactArena) (ident : String) → ancestor_loop (suc fuel) a ident none ≡ some false
unfolding ancestor_loop
ancestor_loop-root fuel a ident = refl

module _ (a : FactArena) (ident : String) (w : WellFormed a) (ids : IdsFrom 0 a.calls) where
  parent_below :
      (id p : CallId) (c : Call)
      → call a id ≡ some c
      → c.parent ≡ some p
      → (p < id) × (d : Call) × (call a p ≡ some d)
  unfolding call
  parent_below id p c at up_p =
      let (d, there, earlier, level) =
        All-get_elem? (ParentIsValid a.calls) a.calls id c w.parents at p up_p in
      (omega (arith, IdsFrom-get_elem? 0 a.calls id c ids at), d, there)

  no_kind_at_root :
      (id : CallId) (c : Call)
      → call a id ≡ some c
      → call_kind_matches c.kind ident ≡ false
      → c.parent ≡ none
      → KindFrom a ident id
      → ⊥
  no_kind_at_root id c at other top (j, d, chain, at', kind) = elim (UpFrom-inv c at chain) [
    | inl same ↦
        let is_c : d ≡ c = cc in
        let again : call_kind_matches c.kind ident ≡ true = rw is_c at kind in cc
    | inr (p, up_p, rest) ↦ cc
  ]

  kind_above :
      (id p : CallId) (c : Call)
      → call a id ≡ some c
      → call_kind_matches c.kind ident ≡ false
      → c.parent ≡ some p
      → KindFrom a ident id
      → KindFrom a ident p
  kind_above id p c at other up_p (j, d, chain, at', kind) = elim (UpFrom-inv c at chain) [
    | inl same ↦
        let is_c : d ≡ c = cc in
        let again : call_kind_matches c.kind ident ≡ true = rw is_c at kind in absurd (cc)
    | inr (q, up_q, rest) ↦ let same : q ≡ p = cc in (j, d, rw same at rest, at', kind)
  ]

  -- The loop's answer from `id` on, with enough fuel for the ids from `id` down to the root.
  loop_decides :
      (fuel : ℕ) (id : CallId) (c : Call)
      → suc id < fuel
      → call a id ≡ some c
      → (b : Bool) × (ancestor_loop fuel a ident (some id) ≡ some b)
        × ((b ≡ true) ↔ KindFrom a ident id)
  loop_decides zero id c h at = absurd (omega arith)
  loop_decides (suc zero) id c h at = absurd (omega arith)
  loop_decides (suc (suc fuel)) id c h at = elim (Bool-cases (call_kind_matches c.kind ident)) [
    | inl kind ↦ (
      true,
      ancestor_loop-match (suc fuel) a ident id c at kind,
      (λ _. (id, c, here refl, at, kind), λ _. refl),
    )
    | inr other ↦
        let climb = ancestor_loop-climb (suc fuel) a ident id c at other in
        elim (Option-cases c.parent) [
          | inl top ↦ (
            false,
            climb ∙ ap (ancestor_loop (suc fuel) a ident) top ∙ ancestor_loop-root fuel a ident,
            (λ e. absurd (cc), λ k. absurd (no_kind_at_root id c at other top k)),
          )
          | inr (p, up_p) ↦
              let (lower, d, there) = parent_below id p c at up_p in
              let (b, answer, decides) = loop_decides (suc fuel) p d (omega arith) there in
              (
                b,
                climb ∙ ap (ancestor_loop (suc fuel) a ident) up_p ∙ answer,
                (
                  λ e.
                      let (j, e', chain, at', kind) = decides.0 e in
                      (j, e', UpFrom-shift c at up_p chain, at', kind),
                  λ k. decides.1 (kind_above id p c at other up_p k),
                ),
              )
        ]
  ]

has_ancestor_of_kind-loop :
    (t : Trace) (start : CallId) (ident : String) (c : Call) (b : Bool)
    → call t.arena start ≡ some c
    → ancestor_loop (suc (length t.arena.calls)) t.arena ident c.parent ≡ some b
    → has_ancestor_of_kind t start ident ≡ b
unfolding has_ancestor_of_kind
has_ancestor_of_kind-loop t start ident c b at answer = rw (has_ancestor_of_kind, at, answer)

-- In a well-formed arena whose ids are positions, the walk up the parents of an existing call ends
-- within its fuel, and its answer says whether a strict ancestor of the call has the kind.
pub has_ancestor_of_kind_iff :
    (t : Trace) (start : CallId) (ident : String) (c : Call)
    → WellFormed t.arena
    → IdsFrom 0 t.arena.calls
    → call t.arena start ≡ some c
    → ((b : Bool) × (ancestor_loop (suc (length t.arena.calls)) t.arena ident c.parent ≡ some b))
      × ((has_ancestor_of_kind t start ident ≡ true) ↔ AncestorOfKind t.arena ident start)
unfolding call
has_ancestor_of_kind_iff t start ident c w ids at =
    let low = lt-length_of_get_elem? t.arena.calls start c at in
    elim (Option-cases c.parent) [
      | inl top ↦
          let answer =
            ap (ancestor_loop (suc (length t.arena.calls)) t.arena ident) top
            ∙ ancestor_loop-root _ t.arena ident in
          let result = has_ancestor_of_kind-loop t start ident c false at answer in
          (
            (false, answer),
            (
              λ e. absurd (cc),
              λ k. absurd (let (j, d, chain, at', kind) = k in IsAncestor-root c at top chain),
            ),
          )
      | inr (p, up_p) ↦
          let (lower, d, there) = parent_below t.arena ident w ids start p c at up_p in
          let (b, looped, decides) =
            loop_decides t.arena ident w ids (suc (length t.arena.calls)) p d (omega arith) there in
          let answer =
            ap (ancestor_loop (suc (length t.arena.calls)) t.arena ident) up_p ∙ looped in
          let result = has_ancestor_of_kind-loop t start ident c b at answer in
          (
            (b, answer),
            (
              λ e.
                  let (j, d', chain, at', kind) = decides.0 (sym result ∙ e) in
                  (j, d', UpFrom-IsAncestor c at up_p chain, at', kind),
              λ k.
                  let (j, d', chain, at', kind) = k in
                  result ∙ decides.1 (j, d', IsAncestor-UpFrom c at up_p chain, at', kind),
            ),
          )
    ]
