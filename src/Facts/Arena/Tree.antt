-- ===== src/Facts/Arena/Tree.antt =====
-- The call tree of a built arena, by positions.
use rootcause.Prelude.{
  ℕ, zero, suc, ◌+◌, ◌%◌, ◌<◌, ◌≡◌, some, List, [], ◌∷◌, ok, length, get_elem?, All, All-get_elem?,
  arith,
}
use rootcause.Facts.Types.{CallId, Call, StorageChange, LogEvent, TokenTransfer}
use rootcause.Facts.Arena.{FactArena, FactArenaBuilder, u16_mod, build}
use rootcause.Facts.Arena.Valid.{IsChild, OneRoot, WellFormed, frozen, build-WellFormed}
use rootcause.Facts.Arena.Ids.{IdsFrom, IdsFrom-get_elem?}

-- `Reaches calls i n`: from the call at position `i`, `n` steps to the parent end at position 0.
pub data Reaches (calls : List Call) : ℕ → ℕ → Type 0 where
  at_root : Reaches calls 0 0
  step :
      {i p n : ℕ} (c : Call)
      → get_elem? calls i ≡ some c
      → c.parent ≡ some p
      → Reaches calls p n
      → Reaches calls i (suc n)

-- The parent of the call at position `i` stands at a position before `i`, one level up.
abbrev pub EarlierParent : List Call → ℕ → Call → Type 0
EarlierParent calls i c =
    (p : CallId)
    → c.parent ≡ some p
    → (p < i)
      × ((parent : Call) × (get_elem? calls p ≡ some parent)
          × (c.depth ≡ (parent.depth + 1) % u16_mod))

-- The call at position `i` is as deep below the root as it takes steps to reach it.
abbrev pub IsLevel : List Call → Call → ℕ → Call → Type 0
IsLevel calls root i c =
    (n : ℕ) × Reaches calls i n × (c.depth % u16_mod ≡ (root.depth + n) % u16_mod)

-- A tree of calls, given by positions alone, with the references of the other facts.
pub record IsTree (a : FactArena) : Type 0 where
  pub one_root : OneRoot a.calls
  pub earlier : (i : ℕ) (c : Call) → get_elem? a.calls i ≡ some c → EarlierParent a.calls i c
  pub levels :
      (root : Call) (i : ℕ) (c : Call)
      → get_elem? a.calls 0 ≡ some root
      → get_elem? a.calls i ≡ some c
      → IsLevel a.calls root i c
  pub changes_resolve : All (λ (s : StorageChange). s.call_id < length a.calls) a.storage_changes
  pub logs_resolve : All (λ (l : LogEvent). l.call_id < length a.calls) a.logs
  pub transfers_resolve : All (λ (t : TokenTransfer). t.log_id < length a.logs) a.token_transfers

-- Every call but the first has a parent.
OneRoot-IsChild :
    (calls : List Call) (j : ℕ) (c : Call)
    → OneRoot calls
    → get_elem? calls (suc j) ≡ some c
    → IsChild c
OneRoot-IsChild [] j c root h = absurd root
OneRoot-IsChild (first ∷ rest) j c root h = All-get_elem? IsChild rest j c root.1 h

module _ (a : FactArena) (w : WellFormed a) (ids : IdsFrom 0 a.calls) where
  WellFormed-EarlierParent :
      (i : ℕ) (c : Call) → get_elem? a.calls i ≡ some c → EarlierParent a.calls i c
  WellFormed-EarlierParent i c at p e =
      let (parent, found, low, level) = All-get_elem? _ a.calls i c w.parents at p e in
      let here : c.id ≡ 0 + i = IdsFrom-get_elem? 0 a.calls i c ids at in
      (omega arith, (parent, found, level))

  -- By induction on a bound of the position.
  WellFormed-IsLevel :
      (bound : ℕ) (root : Call) (i : ℕ) (c : Call)
      → i < bound
      → get_elem? a.calls 0 ≡ some root
      → get_elem? a.calls i ≡ some c
      → IsLevel a.calls root i c
  WellFormed-IsLevel zero root i c low first at = absurd (omega arith)
  WellFormed-IsLevel (suc bound) root zero c low first at =
      let same : root ≡ c = cc in (0, at_root, rw same (omega arith))
  WellFormed-IsLevel (suc bound) root (suc j) c low first at =
      let (p, e) = OneRoot-IsChild a.calls j c w.one_root at in
      let (before, (parent, found, level)) = WellFormed-EarlierParent (suc j) c at p e in
      let (n, up, same) = WellFormed-IsLevel bound root p parent (omega arith) first found in
      (suc n, step c at e up, omega arith)

-- Where the ids of a builder's calls are their positions and `build` succeeds, the arena holds the
-- builder's own facts, and its calls are a tree by position: one call without a parent, which comes
-- first; every other call's parent stands strictly before it; from every call the steps to the
-- parent end at the first one, and in 16 bits the call's depth is the first call's depth plus the
-- number of these steps. Every reference of a storage change, a log or a transfer is in range.
pub build-IsTree :
    (b : FactArenaBuilder) (a : FactArena)
    → IdsFrom 0 b.calls
    → build b ≡ ok a
    → (a ≡ frozen b) × IsTree a
build-IsTree b a ids h =
    let (same, w) = build-WellFormed b a h in
    let positions : IdsFrom 0 a.calls = rw same ids in
    (
      same,
      record {
        one_root = w.one_root;
        earlier = WellFormed-EarlierParent a w positions;
        levels = λ root i c first at.
            WellFormed-IsLevel a w positions (suc i) root i c (omega arith) first at;
        changes_resolve = w.changes_resolve;
        logs_resolve = w.logs_resolve;
        transfers_resolve = w.transfers_resolve;
      },
    )
