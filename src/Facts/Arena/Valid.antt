-- ===== src/Facts/Arena/Valid.antt =====
-- What `FactArenaBuilder::build` guarantees of the arena that it returns.
use rootcause.Prelude.{
  ℕ, ◌+◌, ◌%◌, ◌<◌, ◌≡◌, ◌∙◌, none, some, List, [], ◌∷◌, ok, >>-eq-ok, >>-ok, try_for_each,
  try_enumerate, try_for_each_sound, try_for_each_complete, try_enumerate_sound,
  try_enumerate_complete, All, length, get_elem?, lt-length_of_get_elem?, get_elem?_of_lt,
  Option-cases, arith, inl, inr, ◌↔◌,
}
use rootcause.Facts.Types.{CallId, Call, StorageChange, LogEvent, TokenTransfer}
use rootcause.Facts.Arena.{
  FactArena, FactArenaBuilder, u16_mod, reject_root, check_parent, validate_call_tree,
  check_storage_change, check_log, check_token_transfer, build,
}

-- The parent's id names a call of the list and is below the call's own id, and the call is one level
-- below that call. The call's own position is not looked at.
abbrev pub HasParent : List Call → Call → CallId → Type 0
HasParent calls c p =
    (parent : Call) × (get_elem? calls p ≡ some parent)
    × (p < c.id)
    × (c.depth ≡ (parent.depth + 1) % u16_mod)

abbrev pub ParentIsValid : List Call → Call → Type 0
ParentIsValid calls c = (p : CallId) → c.parent ≡ some p → HasParent calls c p

abbrev pub IsChild : Call → Type 0
IsChild c = (p : CallId) × (c.parent ≡ some p)

-- One root, which comes first.
abbrev pub OneRoot : List Call → Type 0
OneRoot [] = ⊥
OneRoot (first ∷ rest) = (first.parent ≡ none) × All IsChild rest

-- What `build` checks. It compares ids with ids, never with positions, and takes any depth for the
-- root; Tree says what this means where the ids are positions.
pub record WellFormed (a : FactArena) : Type 0 where
  pub one_root : OneRoot a.calls
  pub parents : All (ParentIsValid a.calls) a.calls
  pub changes_resolve : All (λ (s : StorageChange). s.call_id < length a.calls) a.storage_changes
  pub logs_resolve : All (λ (l : LogEvent). l.call_id < length a.calls) a.logs
  pub transfers_resolve : All (λ (t : TokenTransfer). t.log_id < length a.logs) a.token_transfers

-- The arena that holds what the builder holds.
abbrev pub frozen : FactArenaBuilder → FactArena
frozen b = record {
  calls = b.calls;
  storage_changes = b.storage_changes;
  logs = b.logs;
  token_transfers = b.token_transfers;
}

reject_root-IsChild : (first : CallId) (c : Call) → reject_root first c ≡ ok tt → IsChild c
unfolding reject_root
reject_root-IsChild first c h = ground arith

IsChild-reject_root : (first : CallId) (c : Call) → IsChild c → reject_root first c ≡ ok tt
unfolding reject_root
IsChild-reject_root first c (p, e) = rw e

check_parent-ParentIsValid :
    (calls : List Call) (c : Call) → check_parent calls c ≡ ok tt → ParentIsValid calls c
unfolding check_parent
check_parent-ParentIsValid calls c h p e = elim (Option-cases (get_elem? calls p)) [
  | inl missing ↦ ground arith
  | inr (parent, found) ↦ (parent, found, ground arith, ground arith)
]

ParentIsValid-check_parent :
    (calls : List Call) (c : Call) → ParentIsValid calls c → check_parent calls c ≡ ok tt
unfolding check_parent
ParentIsValid-check_parent calls c valid = elim (Option-cases c.parent) [
  | inl root ↦ rw root
  | inr (p, e) ↦ let (parent, found, earlier, level) = valid p e in ground arith
]

validate_call_tree_sound :
    (calls : List Call)
    → validate_call_tree calls ≡ ok tt
    → OneRoot calls × All (ParentIsValid calls) calls
unfolding validate_call_tree
validate_call_tree_sound [] h = absurd (cc)
validate_call_tree_sound (first ∷ rest) h = elim (Option-cases first.parent) [
  | inl top ↦
      let (_, no_root, parents) = >>-eq-ok _ _ (rw (top, validate_call_tree) at h) in
      (
        (
          top,
          try_for_each_sound IsChild (reject_root first.id) rest (reject_root-IsChild first.id)
              no_root,
        ),
        try_for_each_sound (ParentIsValid (first ∷ rest)) (check_parent (first ∷ rest))
            (first ∷ rest) (check_parent-ParentIsValid (first ∷ rest)) parents,
      )
  | inr (p, e) ↦ absurd (ground arith)
]

validate_call_tree_complete :
    (calls : List Call)
    → OneRoot calls
    → All (ParentIsValid calls) calls
    → validate_call_tree calls ≡ ok tt
unfolding validate_call_tree
validate_call_tree_complete [] root parents = absurd root
validate_call_tree_complete (first ∷ rest) (top, children) parents = rw top (
    >>-ok _ _ (
      try_for_each_complete IsChild (reject_root first.id) rest (IsChild-reject_root first.id)
        children)
    ∙ try_for_each_complete (ParentIsValid (first ∷ rest)) (check_parent (first ∷ rest))
        (first ∷ rest) (ParentIsValid-check_parent (first ∷ rest)) parents)

check_storage_change-lt :
    (calls : List Call) (i : ℕ) (s : StorageChange)
    → check_storage_change calls i s ≡ ok tt
    → s.call_id < length calls
unfolding check_storage_change
check_storage_change-lt calls i s h = elim (Option-cases (get_elem? calls s.call_id)) [
  | inl missing ↦ absurd (ground arith)
  | inr (c, found) ↦ lt-length_of_get_elem? calls s.call_id c found
]

lt-check_storage_change :
    (calls : List Call) (i : ℕ) (s : StorageChange)
    → s.call_id < length calls
    → check_storage_change calls i s ≡ ok tt
unfolding check_storage_change
lt-check_storage_change calls i s h =
    let (c, found) = get_elem?_of_lt calls s.call_id h in rw (found, check_storage_change)

check_log-lt :
    (calls : List Call) (i : ℕ) (l : LogEvent)
    → check_log calls i l ≡ ok tt
    → l.call_id < length calls
unfolding check_log
check_log-lt calls i l h = elim (Option-cases (get_elem? calls l.call_id)) [
  | inl missing ↦ absurd (ground arith)
  | inr (c, found) ↦ lt-length_of_get_elem? calls l.call_id c found
]

lt-check_log :
    (calls : List Call) (i : ℕ) (l : LogEvent)
    → l.call_id < length calls
    → check_log calls i l ≡ ok tt
unfolding check_log
lt-check_log calls i l h =
    let (c, found) = get_elem?_of_lt calls l.call_id h in rw (found, check_log)

check_token_transfer-lt :
    (logs : List LogEvent) (t : TokenTransfer)
    → check_token_transfer logs t ≡ ok tt
    → t.log_id < length logs
unfolding check_token_transfer
check_token_transfer-lt logs t h = elim (Option-cases (get_elem? logs t.log_id)) [
  | inl missing ↦ absurd (ground arith)
  | inr (l, found) ↦ lt-length_of_get_elem? logs t.log_id l found
]

lt-check_token_transfer :
    (logs : List LogEvent) (t : TokenTransfer)
    → t.log_id < length logs
    → check_token_transfer logs t ≡ ok tt
unfolding check_token_transfer
lt-check_token_transfer logs t h =
    let (l, found) = get_elem?_of_lt logs t.log_id h in rw (found, check_token_transfer)

-- A successful `build` returns the builder's own facts, and they are well formed.
pub build-WellFormed :
    (b : FactArenaBuilder) (a : FactArena) → build b ≡ ok a → (a ≡ frozen b) × WellFormed a
unfolding build
build-WellFormed b a h =
    let (_, tree, h₁) = >>-eq-ok (validate_call_tree b.calls) _ h in
    let (_, changes, h₂) =
      >>-eq-ok (try_enumerate (check_storage_change b.calls) 0 b.storage_changes) _ h₁ in
    let (_, logs, h₃) = >>-eq-ok (try_enumerate (check_log b.calls) 0 b.logs) _ h₂ in
    let (_, transfers, h₄) =
      >>-eq-ok (try_for_each (check_token_transfer b.logs) b.token_transfers) _ h₃ in
    let same : a ≡ frozen b = cc in
    (
      same,
      rw same (record {
        one_root = (validate_call_tree_sound b.calls tree).0;
        parents = (validate_call_tree_sound b.calls tree).1;
        changes_resolve =
            try_enumerate_sound _ _ 0 b.storage_changes (check_storage_change-lt b.calls) changes;
        logs_resolve = try_enumerate_sound _ _ 0 b.logs (check_log-lt b.calls) logs;
        transfers_resolve =
            try_for_each_sound _ _ b.token_transfers (check_token_transfer-lt b.logs) transfers;
      }),
    )

-- `build` accepts every builder whose facts are well formed, and returns exactly those facts.
pub WellFormed-build : (b : FactArenaBuilder) → WellFormed (frozen b) → build b ≡ ok (frozen b)
unfolding build
WellFormed-build b w =
    >>-ok _ _ (validate_call_tree_complete b.calls w.one_root w.parents)
    ∙ >>-ok _ _ (
        try_enumerate_complete _ _ 0 b.storage_changes (lt-check_storage_change b.calls)
          w.changes_resolve)
    ∙ >>-ok _ _ (try_enumerate_complete _ _ 0 b.logs (lt-check_log b.calls) w.logs_resolve)
    ∙ >>-ok _ _ (
        try_for_each_complete _ _ b.token_transfers (lt-check_token_transfer b.logs)
          w.transfers_resolve)

-- `build` returns an arena exactly if the arena holds the builder's own facts and these pass its
-- checks: one call without a parent, which comes first; every other call's parent id names a call of
-- the list and is below the call's own id; the call's depth is that call's depth plus one, in 16
-- bits; and every reference of a storage change, a log or a transfer is in range. Whether the ids are
-- positions, and the depth of the first call, do not matter.
pub build_iff :
    (b : FactArenaBuilder) (a : FactArena) → (build b ≡ ok a) ↔ ((a ≡ frozen b) × WellFormed a)
build_iff b a = (build-WellFormed b a, λ h. rw h.0 (WellFormed-build b (rw h.0 at h.1)))
