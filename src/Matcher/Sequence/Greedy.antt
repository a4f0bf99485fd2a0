-- ===== src/Matcher/Sequence/Greedy.antt =====
-- The greedy choice against every order-consistent assignment of occurrences to steps.
use rootcause.Prelude.{
  ℕ, ◌≤◌, Bool, true, false, Option, none, some, List, [], ◌∷◌, ◌≡◌, refl, sym, inl, inr, find,
  get_elem?, All, All-map, All-zip, All-Member, All-get_elem?, Member, Member-All, Bool-cases,
  Option-cases, arith, leb→le, le→leb,
}
use rootcause.Dsl.Ir.{EvidenceRef, CompiledSequence}
use rootcause.Matcher.Binding.{Binding}
use rootcause.Matcher.Sequence.{permits, raised, resolve_from, resolve}

-- Rust's order on `Option<u32>`: `None` comes first.
abbrev pub KeyLe : Option ℕ → Option ℕ → Type 0
KeyLe none b = Unit
KeyLe (some x) none = ⊥
KeyLe (some x) (some y) = x ≤ y

abbrev pub IsSorted : List Binding → Type 0
IsSorted [] = Unit
IsSorted (b ∷ bs) = All (λ (c : Binding). KeyLe b.order c.order) bs × IsSorted bs

-- Each binding is one of its step's candidates.
abbrev pub Chosen : List (List Binding) → List EvidenceRef → List Binding → Type 0
Chosen m [] [] = Unit
Chosen m (s ∷ ss) (b ∷ bs) =
    ((candidates : List Binding) × (get_elem? m s ≡ some candidates) × Member b candidates)
    × Chosen m ss bs
Chosen m _ _ = ⊥

-- No binding with a position stands after one with a greater position.
abbrev pub NotAfter : Binding → Binding → Type 0
NotAfter a b = (x y : ℕ) → a.order ≡ some x → b.order ≡ some y → x ≤ y

abbrev pub Ascending : List Binding → Type 0
Ascending [] = Unit
Ascending (b ∷ bs) = All (NotAfter b) bs × Ascending bs

abbrev Permitted : Option ℕ → Binding → Type 0
Permitted lower_bound b = permits lower_bound b.order ≡ true

-- As the loop sees it: each position against the running lower bound.
abbrev Consistent : Option ℕ → List Binding → Type 0
Consistent lower_bound [] = Unit
Consistent lower_bound (b ∷ bs) =
    Permitted lower_bound b × Consistent (raised lower_bound b.order) bs

find-some :
    (p : Binding → Bool) (xs : List Binding) (b : Binding)
    → find p xs ≡ some b
    → Member b xs × (p b ≡ true)
find-some p [] b h = absurd (cc)
find-some p (x ∷ xs) b h = elim (Bool-cases (p x)) [
  | inl yes_x ↦ let same : x ≡ b = ground arith in (inl (sym same), rw (← same) yes_x)
  | inr no_x ↦ let (m, holds_b) = find-some p xs b (ground arith) in (inr m, holds_b)
]

sound :
    (m : List (List Binding)) (lower_bound : Option ℕ) (steps : List EvidenceRef)
    (bs : List Binding)
    → resolve_from m lower_bound steps ≡ some bs
    → Chosen m steps bs × Consistent lower_bound bs
unfolding resolve_from
sound m lb [] [] h = (tt, tt)
sound m lb [] (b ∷ bs) h = absurd (cc)
sound m lb (s ∷ ss) bs h = elim (Option-cases (get_elem? m s)) [
  | inl missing ↦ absurd (ground arith)
  | inr (candidates, at) ↦
      elim (Option-cases (find (λ (b : Binding). permits lb b.order) candidates)) [
        | inl no_candidate ↦ absurd (ground arith)
        | inr (chosen, found) ↦ elim (Option-cases (resolve_from m (raised lb chosen.order) ss)) [
          | inl stuck ↦ absurd (ground arith)
          | inr (rest, tail) ↦
              let same : chosen ∷ rest ≡ bs = ground arith in
              let (member, allowed) = find-some (λ b. permits lb b.order) candidates chosen found in
              let (chosen_rest, ascending_rest) = sound m (raised lb chosen.order) ss rest tail in
              rw (← same) (((candidates, at, member), chosen_rest), (allowed, ascending_rest))
        ]
      ]
]

permits_mono : (a b c : Option ℕ) → KeyLe a b → permits b c ≡ true → permits a c ≡ true
unfolding permits
permits_mono none b c le h = refl
permits_mono (some x) none c le h = absurd le
permits_mono (some x) (some y) none le h = refl
permits_mono (some x) (some y) (some z) le h = ground arith

raised_above : (lb c : Option ℕ) → permits lb c ≡ true → KeyLe lb (raised lb c)
unfolding permits
raised_above none c h = tt
raised_above (some x) none h = omega arith
raised_above (some x) (some y) h = leb→le x y h

raised-NotAfter :
    (lb : Option ℕ) (a b : Binding) → permits (raised lb a.order) b.order ≡ true → NotAfter a b
unfolding permits
raised-NotAfter lb a b h x y ax by = leb→le x y (rw (ax, by) at h)

NotAfter-raised :
    (lb : Option ℕ) (a b : Binding)
    → permits lb b.order ≡ true
    → NotAfter a b
    → permits (raised lb a.order) b.order ≡ true
unfolding permits
NotAfter-raised lb a b h after = elim (Option-cases a.order) [
  | inl no_key ↦ rw no_key h
  | inr (x, ax) ↦ elim (Option-cases b.order) [
    | inl no_key ↦ rw (ax, no_key)
    | inr (y, by) ↦ rw (ax, by) (le→leb x y (after x y ax by))
  ]
]

Consistent-Permitted :
    (lb : Option ℕ) (bs : List Binding) → Consistent lb bs → All (Permitted lb) bs
Consistent-Permitted lb [] c = tt
Consistent-Permitted lb (b ∷ bs) (allowed, c) = (
  allowed,
  All-map (Permitted (raised lb b.order)) (Permitted lb) bs
      (λ d. permits_mono lb (raised lb b.order) d.order (raised_above lb b.order allowed))
      (Consistent-Permitted (raised lb b.order) bs c),
)

Consistent-Ascending : (lb : Option ℕ) (bs : List Binding) → Consistent lb bs → Ascending bs
Consistent-Ascending lb [] c = tt
Consistent-Ascending lb (b ∷ bs) (allowed, c) = (
  All-map (Permitted (raised lb b.order)) (NotAfter b) bs (raised-NotAfter lb b)
      (Consistent-Permitted (raised lb b.order) bs c),
  Consistent-Ascending (raised lb b.order) bs c,
)

Ascending-Consistent :
    (lb : Option ℕ) (bs : List Binding) → All (Permitted lb) bs → Ascending bs → Consistent lb bs
Ascending-Consistent lb [] ps later = tt
Ascending-Consistent lb (b ∷ bs) (here, ps) (first, later) = (
  here,
  Ascending-Consistent (raised lb b.order) bs
      (All-zip (Permitted lb) (NotAfter b) (Permitted (raised lb b.order)) bs (NotAfter-raised lb b)
        ps first)
      later,
)

KeyLe-refl : (a : Option ℕ) → KeyLe a a
KeyLe-refl none = tt
KeyLe-refl (some x) = omega arith

-- In a sorted list the first permitted occurrence is the earliest permitted one.
find-least :
    (lb : Option ℕ) (candidates : List Binding) (b : Binding)
    → IsSorted candidates
    → Member b candidates
    → Permitted lb b
    → (r : Binding) × (find (λ (c : Binding). permits lb c.order) candidates ≡ some r)
      × KeyLe r.order b.order
find-least lb [] b sorted m allowed = absurd m
find-least lb (x ∷ xs) b sorted m allowed = elim (Bool-cases (permits lb x.order)) [
  | inl taken ↦ (
    x,
    rw taken,
    elim m [ inl e ↦ rw e (KeyLe-refl x.order) | inr later ↦ All-Member _ xs b sorted.0 later ],
  )
  | inr skipped ↦ elim m [
    | inl e ↦ absurd (let same : permits lb b.order ≡ false = rw e skipped in cc)
    | inr later ↦ rw skipped (find-least lb xs b sorted.1 later allowed)
  ]
]

raised_mono :
    (lb lb' a b : Option ℕ)
    → KeyLe lb lb'
    → KeyLe a b
    → permits lb' b ≡ true
    → KeyLe (raised lb a) (raised lb' b)
unfolding permits
raised_mono none lb' none b le key h = tt
raised_mono (some x) none none b le key h = absurd le
raised_mono (some x) (some y) none none le key h = le
raised_mono (some x) (some y) none (some z) le key h = ground arith
raised_mono lb lb' (some x) none le key h = absurd key
raised_mono lb lb' (some x) (some z) le key h = key

resolve_from-step :
    (m : List (List Binding)) (lb : Option ℕ) (s : EvidenceRef) (ss : List EvidenceRef)
    (candidates : List Binding) (r : Binding) (rest : List Binding)
    → get_elem? m s ≡ some candidates
    → find (λ (c : Binding). permits lb c.order) candidates ≡ some r
    → resolve_from m (raised lb r.order) ss ≡ some rest
    → resolve_from m lb (s ∷ ss) ≡ some (r ∷ rest)
unfolding resolve_from
resolve_from-step m lb s ss candidates r rest at found tail = rw (resolve_from, at, found, tail)

greedy_complete :
    (m : List (List Binding)) (lb lb' : Option ℕ) (steps : List EvidenceRef) (bs : List Binding)
    → All IsSorted m
    → KeyLe lb lb'
    → Chosen m steps bs
    → Consistent lb' bs
    → (rs : List Binding) × (resolve_from m lb steps ≡ some rs)
unfolding resolve_from
greedy_complete m lb lb' [] bs sorted le chosen c = ([], refl)
greedy_complete m lb lb' (s ∷ ss) [] sorted le chosen c = absurd chosen
greedy_complete m lb lb' (s ∷ ss) (b ∷ bs) sorted le ((candidates, at, member), chosen)
      (allowed, c) =
    let lower = permits_mono lb lb' b.order le allowed in
    let (r, found, key) =
      find-least lb candidates b (All-get_elem? IsSorted m s candidates sorted at) member lower in
    let (rest, tail) =
      greedy_complete m (raised lb r.order) (raised lb' b.order) ss bs sorted
        (raised_mono lb lb' r.order b.order le key allowed) chosen c in
    (r ∷ rest, resolve_from-step m lb s ss candidates r rest at found tail)

-- What `resolve` returns takes each step's binding from that step's own candidates, and no binding
-- with a position stands after one with a greater position.
pub resolve-Ascending :
    (sequence : CompiledSequence) (m : List (List Binding)) (bs : List Binding)
    → resolve sequence m ≡ some bs
    → Chosen m sequence.steps bs × Ascending bs
unfolding resolve
resolve-Ascending sequence m bs h =
    let (chosen, c) = sound m none sequence.steps bs h in (chosen, Consistent-Ascending none bs c)

-- Over candidate lists in execution order, `resolve` succeeds whenever some ascending choice of
-- candidates exists: the greedy choice loses no match.
pub resolve_complete :
    (sequence : CompiledSequence) (m : List (List Binding)) (bs : List Binding)
    → All IsSorted m
    → Chosen m sequence.steps bs
    → Ascending bs
    → (rs : List Binding) × (resolve sequence m ≡ some rs)
unfolding resolve permits
resolve_complete sequence m bs sorted chosen ascending =
    greedy_complete m none none sequence.steps bs sorted tt chosen
      (Ascending-Consistent none bs (Member-All (Permitted none) bs (λ b x. refl)) ascending)
