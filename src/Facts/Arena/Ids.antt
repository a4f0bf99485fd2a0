-- ===== src/Facts/Arena/Ids.antt =====
-- Arenas whose ids are positions, which is what `next_call_id` and `next_log_id` hand out.
use rootcause.Prelude.{
  ℕ, zero, suc, ◌+◌, ◌≤◌, ◌≡◌, some, List, [], ◌∷◌, ◌++◌, length, get_elem?, arith,
}
use rootcause.Facts.Types.{Call, LogEvent}
use rootcause.Facts.Arena.{
  FactArena, FactArenaBuilder, next_call_id, next_log_id, add_call, add_log, u32_mod,
}

-- The calls from position `i` on carry their positions as ids.
abbrev pub IdsFrom : ℕ → List Call → Type 0
IdsFrom i [] = Unit
IdsFrom i (c ∷ cs) = (c.id ≡ i) × IdsFrom (suc i) cs

pub IdsFrom-get_elem? :
    (i : ℕ) (cs : List Call) (k : ℕ) (c : Call)
    → IdsFrom i cs
    → get_elem? cs k ≡ some c
    → c.id ≡ i + k
IdsFrom-get_elem? i [] k c ids h = absurd (cc)
IdsFrom-get_elem? i (d ∷ cs) zero c ids h = ground (arith, ids.0)
IdsFrom-get_elem? i (d ∷ cs) (suc k) c ids h =
    omega (arith, IdsFrom-get_elem? (suc i) cs k c ids.1 h)

IdsFrom-snoc :
    (i : ℕ) (cs : List Call) (c : Call)
    → IdsFrom i cs
    → c.id ≡ i + length cs
    → IdsFrom i (cs ++ c ∷ [])
IdsFrom-snoc i [] c ids e = (omega arith, tt)
IdsFrom-snoc i (d ∷ cs) c (here, ids) e = (here, IdsFrom-snoc (suc i) cs c ids (omega arith))

-- If the ids of a builder's calls are their positions, they still are after a call with the id that
-- `next_call_id` hands out is added.
pub add_call-IdsFrom :
    (b : FactArenaBuilder) (c : Call)
    → IdsFrom 0 b.calls
    → next_call_id b ≡ some c.id
    → IdsFrom 0 (add_call b c).1.calls
unfolding next_call_id add_call
add_call-IdsFrom b c ids h = IdsFrom-snoc 0 b.calls c ids (ground arith)

abbrev pub LogIdsFrom : ℕ → List LogEvent → Type 0
LogIdsFrom i [] = Unit
LogIdsFrom i (l ∷ ls) = (l.id ≡ i) × LogIdsFrom (suc i) ls

pub LogIdsFrom-get_elem? :
    (i : ℕ) (ls : List LogEvent) (k : ℕ) (l : LogEvent)
    → LogIdsFrom i ls
    → get_elem? ls k ≡ some l
    → l.id ≡ i + k
LogIdsFrom-get_elem? i [] k l ids h = absurd (cc)
LogIdsFrom-get_elem? i (d ∷ ls) zero l ids h = ground (arith, ids.0)
LogIdsFrom-get_elem? i (d ∷ ls) (suc k) l ids h =
    omega (arith, LogIdsFrom-get_elem? (suc i) ls k l ids.1 h)

LogIdsFrom-snoc :
    (i : ℕ) (ls : List LogEvent) (l : LogEvent)
    → LogIdsFrom i ls
    → l.id ≡ i + length ls
    → LogIdsFrom i (ls ++ l ∷ [])
LogIdsFrom-snoc i [] l ids e = (omega arith, tt)
LogIdsFrom-snoc i (d ∷ ls) l (here, ids) e = (here, LogIdsFrom-snoc (suc i) ls l ids (omega arith))

-- The same of the logs and `next_log_id`.
pub add_log-LogIdsFrom :
    (b : FactArenaBuilder) (l : LogEvent)
    → LogIdsFrom 0 b.logs
    → next_log_id b ≡ some l.id
    → LogIdsFrom 0 (add_log b l).1.logs
unfolding next_log_id add_log
add_log-LogIdsFrom b l ids h = LogIdsFrom-snoc 0 b.logs l ids (ground arith)

-- Every id is a position, and every position fits a u32.
pub record IsIndexed (a : FactArena) : Type 0 where
  pub call_ids : IdsFrom 0 a.calls
  pub log_ids : LogIdsFrom 0 a.logs
  pub few_changes : length a.storage_changes ≤ u32_mod
  pub few_transfers : length a.token_transfers ≤ u32_mod
