-- ===== src/Matcher/Engine/Built.antt =====
-- How a candidate comes about: the anchor occurrence, the maps of bindings, and the choices.
use rootcause.Prelude.{
  ℕ, ◌≡◌, refl, sym, ap, ◌∙◌, inl, inr, true, Option, none, some, List, [], ◌∷◌, ◌==◌, nat_Eq,
  lookup, map_insert, set, get_elem?, Member, Bool-cases, Option-cases, nat_eq_iff, zero, suc,
}
use rootcause.Facts.Trace.{Trace}
use rootcause.Dsl.Ir.{EvidenceRef, CompiledSequence, CompiledPattern}
use rootcause.Matcher.Binding.{Binding, CandidateMatch}
use rootcause.Matcher.Constraint.{holds}
use rootcause.Matcher.Sequence.{resolve}
use rootcause.Matcher.Sequence.Greedy.{Chosen, resolve-Ascending}
use rootcause.Matcher.SameCall.{Bindings, matches_at}
use rootcause.Matcher.SameCall.Origin.{FromMatches, FromMatches-map_insert, head?-Member}
use rootcause.Matcher.SameCall.Correlated.{resolve_same_call-Correlated}
use rootcause.Matcher.Engine.{
  collect_steps, resolve_sequence, has_match, same_call_bindings, referenced, choose, candidate_of,
  try_build_candidate, candidates_from,
}

pub FromMatches-nil : (m : List (List Binding)) → FromMatches m []
FromMatches-nil m idx b e = absurd (let no_entry : ◌≡◌ {A = Option Binding} none (some b) = e in cc)

-- What `try_build_candidate` went through to return a candidate.
pub record Built (t : Trace) (p : CompiledPattern) (m : List (List Binding)) (anchor_idx : ℕ)
    (anchor_binding : Binding) (c : CandidateMatch) : Type 0 where
  pub sequence_bindings : Bindings
  pub same_calls : Bindings
  pub sequenced : resolve_sequence p.sequence m anchor_idx anchor_binding ≡ some sequence_bindings
  pub satisfied : holds p.constraint (has_match m anchor_idx sequence_bindings) ≡ true
  pub correlated :
      same_call_bindings t p m anchor_idx anchor_binding sequence_bindings ≡ some same_calls
  pub result :
      c
      ≡ candidate_of p
          (choose m anchor_idx anchor_binding sequence_bindings same_calls)
          (referenced p anchor_idx sequence_bindings same_calls)

try_build_candidate-Built :
    (t : Trace) (p : CompiledPattern) (m : List (List Binding)) (anchor_idx : ℕ)
    (anchor_binding : Binding) (c : CandidateMatch)
    → try_build_candidate t p m anchor_idx anchor_binding ≡ some c
    → Built t p m anchor_idx anchor_binding c
unfolding try_build_candidate
try_build_candidate-Built t p m i a c h = elim (Option-cases (resolve_sequence p.sequence m i a)) [
  | inl unordered ↦ absurd (let stuck = rw (unordered, try_build_candidate) at h in cc)
  | inr (seq, sequenced) ↦ elim (Bool-cases (holds p.constraint (has_match m i seq))) [
    | inr unmet ↦ absurd (let stuck = rw (sequenced, unmet, try_build_candidate) at h in cc)
    | inl satisfied ↦ elim (Option-cases (same_call_bindings t p m i a seq)) [
      | inl apart ↦
          absurd (let stuck = rw (sequenced, satisfied, apart, try_build_candidate) at h in cc)
      | inr (same_calls, correlated) ↦
          let built = rw (sequenced, satisfied, correlated, try_build_candidate) at h in
          record {
            sequence_bindings = seq;
            same_calls = same_calls;
            sequenced = sequenced;
            satisfied = satisfied;
            correlated = correlated;
            result = cc;
          }
    ]
  ]
]

pub candidates_from-Built :
    (t : Trace) (p : CompiledPattern) (m : List (List Binding)) (anchor_idx : ℕ) (bs : List Binding)
    (c : CandidateMatch)
    → Member c (candidates_from t p m anchor_idx bs)
    → (a : Binding) × Member a bs × Built t p m anchor_idx a c
unfolding candidates_from
candidates_from-Built t p m i [] c mem = absurd mem
candidates_from-Built t p m i (b ∷ bs) c mem = elim (Option-cases (try_build_candidate t p m i b)) [
  | inl failed ↦
      let (a, old, built) =
        candidates_from-Built t p m i bs c (rw (failed, candidates_from) at mem) in
      (a, inr old, built)
  | inr (d, made) ↦ elim (rw (made, candidates_from) at mem) [
    | inl e ↦ (b, inl refl, try_build_candidate-Built t p m i b c (made ∙ ap some (sym e)))
    | inr rest ↦
        let (a, old, built) = candidates_from-Built t p m i bs c rest in (a, inr old, built)
  ]
]

-- Narrowing the anchor's list to one of its own bindings adds no candidate to any list.
get_elem?-set_narrowed :
    (m : List (List Binding)) (i : ℕ) (a : Binding) (s : ℕ) (bs : List Binding) (b : Binding)
    → Member a (matches_at m i)
    → get_elem? (set m i (a ∷ [])) s ≡ some bs
    → Member b bs
    → Member b (matches_at m s)
get_elem?-set_narrowed [] i a s bs b here at mem = absurd (cc)
get_elem?-set_narrowed (xs ∷ m) zero a zero bs b here at mem =
    let same : a ∷ [] ≡ bs = cc in
    elim (rw (← same) at mem) [ inl e ↦ rw e here | inr left ↦ absurd left ]
get_elem?-set_narrowed (xs ∷ m) zero a (suc s) bs b here at mem = rw (at, matches_at) mem
get_elem?-set_narrowed (xs ∷ m) (suc i) a zero bs b here at mem =
    let same : xs ≡ bs = cc in rw same mem
get_elem?-set_narrowed (xs ∷ m) (suc i) a (suc s) bs b here at mem =
    get_elem?-set_narrowed m i a s bs b here at mem

collect_steps-FromMatches :
    (m narrowed : List (List Binding)) (steps : List EvidenceRef) (bs : List Binding)
    (acc : Bindings)
    → ((s : ℕ) (cs : List Binding) (b : Binding)
        → get_elem? narrowed s ≡ some cs
        → Member b cs
        → Member b (matches_at m s))
    → Chosen narrowed steps bs
    → FromMatches m acc
    → FromMatches m (collect_steps steps bs acc)
unfolding collect_steps
collect_steps-FromMatches m n [] [] acc sub chosen from = from
collect_steps-FromMatches m n [] (b ∷ bs) acc sub chosen from = absurd chosen
collect_steps-FromMatches m n (s ∷ ss) [] acc sub chosen from = absurd chosen
collect_steps-FromMatches m n (s ∷ ss) (b ∷ bs) acc sub ((cs, at, mem), chosen) from =
    collect_steps-FromMatches m n ss bs (map_insert s b acc) sub chosen
      (FromMatches-map_insert m acc s b from (sub s cs b at mem))

pub resolve_sequence-FromMatches :
    (sequence : Option CompiledSequence) (m : List (List Binding)) (i : ℕ) (a : Binding)
    (seq : Bindings)
    → Member a (matches_at m i)
    → resolve_sequence sequence m i a ≡ some seq
    → FromMatches m seq
unfolding resolve_sequence
resolve_sequence-FromMatches none m i a seq here h =
    let same : [] ≡ seq = cc in rw (← same) (FromMatches-nil m)
resolve_sequence-FromMatches (some sequence) m i a seq here h =
    elim (Option-cases (resolve sequence (set m i (a ∷ [])))) [
      | inl unordered ↦ absurd (let stuck = rw (unordered, resolve_sequence) at h in cc)
      | inr (bs, resolved) ↦
          let collected : ◌≡◌ {A = Option Bindings} (some (collect_steps sequence.steps bs []))
              (some seq) =
            rw (resolved, resolve_sequence) at h in
          let same : collect_steps sequence.steps bs [] ≡ seq = cc in
          let (chosen, ascending) = resolve-Ascending sequence (set m i (a ∷ [])) bs resolved in
          rw (← same) (
            collect_steps-FromMatches m (set m i (a ∷ [])) sequence.steps bs []
              (λ s cs b at mem. get_elem?-set_narrowed m i a s cs b here at mem) chosen
              (FromMatches-nil m))
    ]

pub same_call_bindings-FromMatches :
    (t : Trace) (p : CompiledPattern) (m : List (List Binding)) (i : ℕ) (a : Binding)
    (seq same_calls : Bindings)
    → Member a (matches_at m i)
    → FromMatches m seq
    → same_call_bindings t p m i a seq ≡ some same_calls
    → FromMatches m same_calls
unfolding same_call_bindings
same_call_bindings-FromMatches t p m i a seq same_calls here from h =
    elim (Option-cases p.same_call) [
      | inl no_group ↦
          let same : [] ≡ same_calls = (let done = rw (no_group, same_call_bindings) at h in cc) in
          rw (← same) (FromMatches-nil m)
      | inr (sc, group) ↦
          (resolve_same_call-Correlated t sc m i a seq same_calls here from
            (rw (group, same_call_bindings) at h)).0
    ]

-- Whatever a clause is bound to is one of its matches.
pub choose-Member :
    (m : List (List Binding)) (i : ℕ) (a : Binding) (seq same_calls : Bindings) (idx : ℕ)
    (b : Binding)
    → Member a (matches_at m i)
    → FromMatches m seq
    → FromMatches m same_calls
    → choose m i a seq same_calls idx ≡ some b
    → Member b (matches_at m idx)
unfolding choose
choose-Member m i a seq same_calls idx b here from_seq from_calls h = elim (Bool-cases (idx == i)) [
  | inl is_anchor ↦
      let same : a ≡ b = (let done = rw (is_anchor, choose) at h in cc) in
      rw ((nat_eq_iff idx i).0 is_anchor, ← same) here
  | inr other ↦ elim (Option-cases (lookup idx seq)) [
    | inr (c, bound) ↦
        let same : c ≡ b = (let done = rw (other, bound, choose) at h in cc) in
        rw (← same) (from_seq idx c bound)
    | inl unordered ↦ elim (Option-cases (lookup idx same_calls)) [
      | inr (c, bound) ↦
          let same : c ≡ b = (let done = rw (other, unordered, bound, choose) at h in cc) in
          rw (← same) (from_calls idx c bound)
      | inl free ↦ head?-Member (matches_at m idx) b (rw (other, unordered, free, choose) at h)
    ]
  ]
]
