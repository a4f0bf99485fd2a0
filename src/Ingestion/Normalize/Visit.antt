-- ===== src/Ingestion/Normalize/Visit.antt =====
-- One visit of the walk: what it reads of a call, and what it leaves behind.
use rootcause.Prelude.{
  ℕ, ◌+◌, ◌%◌, ◌≤◌, ◌<◌, ◌≡◌, refl, ap, ◌∙◌, ◌⊎◌, inl, inr, true, false, Option, none, some, List,
  [], ◌∷◌, ◌++◌, ok, >>=-eq-ok, ok-injective, ltb, length, get_elem?, get_elem?-append_left,
  get_elem?-append_length, lt-length_of_get_elem?, Bool-cases, Option-cases, arith,
}
use rootcause.Facts.Types.{Address, CallKind, executes_in_caller_context}
use rootcause.Facts.Arena.{u16_mod}
use rootcause.Ingestion.Error.{CallPath}
use rootcause.Ingestion.HexUtil.{parse_hex_u64, parse_hex_u128, parse_address}
use rootcause.Ingestion.Normalize.{
  NormalizedCall, Accumulator, max_call_depth, traverse, parse_call_kind, process_storage_changes,
  process_logs,
}
use rootcause.Ingestion.Normalize.Walk.{
  PendingCall, frame_of, to_or_from, selector_of, storage_context_of, read_call, visit,
}
use rootcause.Ingestion.Normalize.Placed.{
  ContextOf, own, inherited, ContextOf-append, Placed, CallsAreValid-snoc, FactsAreValid,
  FactsAreValid-call,
}
use rootcause.Ingestion.Normalize.Kept.{process_storage_changes-Keeps, process_logs-Keeps}

-- Where the storage context of a call comes from.
abbrev pub ContextIsRead : PendingCall → NormalizedCall → Address → Type 0
ContextIsRead item c context =
    ((executes_in_caller_context c.kind ≡ false) × (to_or_from c.to c.from ≡ context))
    ⊎ ((executes_in_caller_context c.kind ≡ true) × (item.parent_storage_context ≡ some context))

-- What a call takes over from the pending one.
pub record IsRead (item : PendingCall) (c : NormalizedCall) (context : Address) : Type 0 where
  pub parent : c.parent_index ≡ item.parent_index
  pub depth : c.depth ≡ item.depth
  pub shallow : item.depth ≤ max_call_depth
  pub context_read : ContextIsRead item c context

pub storage_context_of-ok :
    (kind : CallKind) (above to : Option Address) (from context : Address) (path : CallPath)
    → storage_context_of kind above to from path ≡ ok context
    → ((executes_in_caller_context kind ≡ false) × (to_or_from to from ≡ context))
      ⊎ ((executes_in_caller_context kind ≡ true) × (above ≡ some context))
storage_context_of-ok kind above to from context path h =
    elim (Bool-cases (executes_in_caller_context kind)) [
      | inr at_home ↦ inl (at_home, ok-injective (rw at_home at h))
      | inl borrowed ↦ elim (Option-cases above) [
        | inl nothing ↦ absurd (let stuck = rw (borrowed, nothing) at h in cc)
        | inr (a, there) ↦
            inr (borrowed, there ∙ ap some (ok-injective (rw (borrowed, there) at h)))
      ]
    ]

pub shallow_enough : (n : ℕ) → ltb max_call_depth n ≡ false → n ≤ max_call_depth
shallow_enough n h = ground arith

pub same-IsRead :
    (item : PendingCall) (c d : NormalizedCall) (a b : Address)
    → Path (NormalizedCall × Address) (c, a) (d, b)
    → IsRead item c a
    → IsRead item d b
same-IsRead item c d a b same read =
    let call : c ≡ d = ap (λ (x : NormalizedCall × Address). x.0) same in
    let context : a ≡ b = ap (λ (x : NormalizedCall × Address). x.1) same in
    rw (← call, ← context) read

pub read_call-IsRead :
    (item : PendingCall) (c : NormalizedCall) (context : Address)
    → read_call item ≡ ok (c, context)
    → IsRead item c context
unfolding read_call
read_call-IsRead item c context h = elim (Bool-cases (ltb max_call_depth item.depth)) [
  | inl deep ↦ absurd (let stuck = rw (deep, read_call) at h in cc)
  | inr shallow ↦
      let raw = frame_of item.raw in
      let (kind, _, h₁) =
        >>=-eq-ok (parse_call_kind item.path raw.kind) _ (rw (shallow, read_call) at h) in
      let (from, _, h₂) = >>=-eq-ok (parse_address "call.from" raw.from) _ h₁ in
      let (to, _, h₃) = >>=-eq-ok (traverse (parse_address "call.to") raw.to) _ h₂ in
      let (value, _, h₄) = >>=-eq-ok (parse_hex_u128 "call.value" raw.value) _ h₃ in
      let (gas_limit, _, h₅) = >>=-eq-ok (parse_hex_u64 "call.gasLimit" raw.gas_limit) _ h₄ in
      let (gas_used, _, h₆) = >>=-eq-ok (parse_hex_u64 "call.gasUsed" raw.gas_used) _ h₅ in
      let (selector, _, h₇) = >>=-eq-ok (selector_of raw.input) _ h₆ in
      let (found, looked_up, h₈) =
        >>=-eq-ok (storage_context_of kind item.parent_storage_context to from item.path) _ h₇ in
      same-IsRead item _ c found context (ok-injective h₈) (record {
        parent = refl;
        depth = refl;
        shallow = shallow_enough item.depth shallow;
        context_read =
            storage_context_of-ok kind item.parent_storage_context to from found item.path
              looked_up;
      })
]

-- The parent of a pending call is there, one level up, and its storage context is known.
abbrev pub HasParent : List NormalizedCall → PendingCall → Type 0
HasParent calls item =
    (p : ℕ) × (d : NormalizedCall) × (a : Address) × (item.parent_index ≡ some p)
    × (get_elem? calls p ≡ some d)
    × (item.depth ≡ (d.depth + 1) % u16_mod)
    × (item.parent_storage_context ≡ some a)
    × ContextOf calls p a

abbrev pub IsRoot : List NormalizedCall → PendingCall → Type 0
IsRoot calls item =
    (calls ≡ [])
    × (item.parent_index ≡ none)
    × (item.depth ≡ 0)
    × (item.parent_storage_context ≡ none)

pub HasParent-append :
    (calls more : List NormalizedCall) (item : PendingCall)
    → HasParent calls item
    → HasParent (calls ++ more) item
HasParent-append calls more item (p, d, a, parent, found, level, context, owner) = (
  p,
  d,
  a,
  parent,
  get_elem?-append_left calls more p d found,
  level,
  context,
  ContextOf-append more owner,
)

pub read-Placed :
    (calls : List NormalizedCall) (item : PendingCall) (c : NormalizedCall) (context : Address)
    → IsRoot calls item ⊎ HasParent calls item
    → IsRead item c context
    → Placed (calls ++ c ∷ []) (length calls) c
read-Placed calls item c context (inl (empty, top, level, _)) read =
    inl (read.parent ∙ top, rw empty refl, read.depth ∙ level)
read-Placed calls item c context (inr (p, d, a, parent, found, level, _, _)) read = inr (
  p,
  d,
  read.parent ∙ parent,
  lt-length_of_get_elem? calls p d found,
  get_elem?-append_left calls (c ∷ []) p d found,
  read.depth ∙ level,
)

pub read-ContextOf :
    (calls : List NormalizedCall) (item : PendingCall) (c : NormalizedCall) (context : Address)
    → IsRoot calls item ⊎ HasParent calls item
    → IsRead item c context
    → ContextOf (calls ++ c ∷ []) (length calls) context
read-ContextOf calls item c context ready read =
    let here = get_elem?-append_length calls [] c in
    elim read.context_read [
      | inl (kind, target) ↦ own c here kind target
      | inr (kind, taken) ↦ elim ready [
        | inl (_, _, _, nothing) ↦ absurd (cc)
        | inr (p, d, a, parent, found, level, given, owner) ↦
            let same : a ≡ context = cc in
            inherited c p here kind (read.parent ∙ parent)
              (ContextOf-append (c ∷ []) (rw (← same) owner))
      ]
    ]

-- What a visit leaves behind.
pub record IsVisited (item : PendingCall) (acc next : Accumulator) (context : Address)
    : Type 0 where
  pub facts : FactsAreValid next
  pub new_call : NormalizedCall
  pub grown : next.calls ≡ acc.calls ++ new_call ∷ []
  pub depth : new_call.depth ≡ item.depth
  pub owner : ContextOf next.calls (length acc.calls) context

pub visit-IsVisited :
    (item : PendingCall) (acc next : Accumulator) (context : Address)
    → FactsAreValid acc
    → IsRoot acc.calls item ⊎ HasParent acc.calls item
    → visit item acc ≡ ok (next, context)
    → IsVisited item acc next context
unfolding visit
visit-IsVisited item acc next context valid ready h =
    let raw = frame_of item.raw in
    let i = length acc.calls in
    let ((c, found), read_ok, h₁) = >>=-eq-ok (read_call item) _ h in
    let read = read_call-IsRead item c found read_ok in
    let acc₁ : Accumulator = record acc { calls = acc.calls ++ c ∷ [] } in
    let (acc₂, changed, h₂) =
      >>=-eq-ok (process_storage_changes i found item.path raw.storage_changes acc₁) _ h₁ in
    let (acc₃, logged, h₃) = >>=-eq-ok (process_logs i item.path raw.logs acc₂) _ h₂ in
    let same = ok-injective h₃ in
    let end : acc₃ ≡ next = ap (λ (x : Accumulator × Address). x.0) same in
    let passed : found ≡ context = ap (λ (x : Accumulator × Address). x.1) same in
    let owner = read-ContextOf acc.calls item c found ready read in
    let calls =
      CallsAreValid-snoc acc.calls c valid.calls (read-Placed acc.calls item c found ready read)
        (rw read.depth read.shallow) in
    let valid₁ = FactsAreValid-call acc c valid calls in
    let (valid₂, same₂) =
      process_storage_changes-Keeps i found item.path raw.storage_changes acc₁ acc₂ owner valid₁
        changed in
    let here : i < length acc₂.calls =
      lt-length_of_get_elem? acc₂.calls i c (rw same₂ (get_elem?-append_length acc.calls [] c)) in
    let (valid₃, same₃) = process_logs-Keeps i item.path raw.logs acc₂ acc₃ here valid₂ logged in
    rw (← end, ← passed)
      (record {
        facts = valid₃;
        new_call = c;
        grown = same₃ ∙ same₂;
        depth = read.depth;
        owner = rw (same₃, same₂) owner;
      })
