-- ===== src/Ingestion/Build/Content.antt =====
-- The arena that stands for normalized facts, its positions for ids.
use rootcause.Prelude.{
  ℕ, suc, ◌<◌, ◌≡◌, Bool, not, ◌&&◌, some, List, [], ◌∷◌, map, length, get_elem?, ◌==◌, nat_Eq,
  list_Eq,
}
use rootcause.Facts.Types.{Call, can_carry_value, StorageChange, LogEvent, TokenTransfer}
use rootcause.Facts.Arena.{FactArena}
use rootcause.Ingestion.Normalize.{
  NormalizedCall, NormalizedStorageChange, NormalizedLog, NormalizedTokenTransfer,
}
use rootcause.Ingestion.Normalize.Walk.{NormalizedTrace}
use rootcause.Ingestion.Build.{select}
use rootcause.Ingestion.Build.Made.{call_of}

-- A static call that moves value, which `Call::new` rejects.
abbrev pub moves_static_value : NormalizedCall → Bool
moves_static_value nc = not (can_carry_value nc.kind) && not (nc.value == 0)

-- The facts of the arena: positions for ids.
abbrev pub calls_as : ℕ → List NormalizedCall → List Call
calls_as i [] = []
calls_as i (nc ∷ ncs) = select nc.selector (call_of i nc.parent_index nc) ∷ calls_as (suc i) ncs

abbrev pub change_as : NormalizedStorageChange → StorageChange
change_as sc = record {
  call_id = sc.call_index;
  slot = record { contract = sc.contract; key = sc.slot };
  before = sc.before;
  after = sc.after;
}

abbrev pub log_as : ℕ → NormalizedLog → LogEvent
log_as i log = record {
  id = i;
  call_id = log.call_index;
  address = log.address;
  topics = log.topics;
  bytes = log.bytes;
  log_index = log.log_index;
}

abbrev pub logs_as : ℕ → List NormalizedLog → List LogEvent
logs_as i [] = []
logs_as i (log ∷ logs) = log_as i log ∷ logs_as (suc i) logs

abbrev pub transfer_as : NormalizedTokenTransfer → TokenTransfer
transfer_as t = record {
  log_id = t.log_index_in_vec;
  token = t.token;
  from = t.from;
  to = t.to;
  amount = t.amount;
}

abbrev pub arena_of : NormalizedTrace → FactArena
arena_of n = record {
  calls = calls_as 0 n.calls;
  storage_changes = map change_as n.storage_changes;
  logs = logs_as 0 n.logs;
  token_transfers = map transfer_as n.token_transfers;
}

-- The positions from `i` on, one for every element.
abbrev pub ids_from {ℓ} : {A : Type ℓ} → ℕ → List A → List ℕ
ids_from i [] = []
ids_from i (x ∷ xs) = i ∷ ids_from (suc i) xs

-- Every id is its position.
abbrev pub ArePositions : List ℕ → Type 0
ArePositions ids = (i : ℕ) → i < length ids → get_elem? ids i ≡ some i
