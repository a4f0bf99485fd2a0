-- ===== src/Tests/Data.antt =====
-- A trace of a re-entrant withdrawal: A calls B with value, B calls back into A, A then writes its
-- storage and logs a transfer. A pattern looks for exactly that.
use rootcause.Prelude.{ℕ, true, Option, none, some, List, [], ◌∷◌, String, ◌≡◌, refl, ok, arith}
use rootcause.Facts.Types.{
  Address, Word, CallKind, Call, StorageChange, LogEvent, TokenTransfer, TxStatus, call_ref,
  storage_change_ref,
}
use rootcause.Facts.Arena.{FactArena, FactArenaBuilder, build, storage_change}
use rootcause.Facts.Arena.Valid.{WellFormed, build-WellFormed}
use rootcause.Facts.Arena.Ids.{IsIndexed}
use rootcause.Facts.Trace.{Trace, TraceSource}
use rootcause.Dsl.Ir.{
  Severity, Requiredness, ident_value, bool_value, CompiledPredicate, CompiledEvidence, evidence,
  and_of, not_of, nil, cons, CompiledSequence, CompiledSameCall, CompiledPattern,
}
use rootcause.Matcher.Binding.{Binding, CandidateMatch}
use rootcause.Matcher.Index.{build_index}
use rootcause.Matcher.Engine.{find_candidates}

abbrev pub address_of : ℕ → Address
address_of b = 0 ∷ 0 ∷ 0 ∷ 0 ∷ 0 ∷ 0 ∷ 0 ∷ 0 ∷ 0 ∷ 0 ∷ 0 ∷ 0 ∷ 0 ∷ 0 ∷ 0 ∷ 0 ∷ 0 ∷ 0 ∷ 171 ∷ b ∷ []

abbrev pub word_of : ℕ → Word
word_of b = 0 ∷ 0 ∷ 0 ∷ 0 ∷ 0 ∷ 0 ∷ 0 ∷ 0 ∷ 0 ∷ 0 ∷ 0 ∷ 0 ∷ address_of b

abbrev pub call_at : ℕ → Option ℕ → ℕ → ℕ → ℕ → ℕ → Call
call_at id parent depth from to value = record {
  id = id;
  parent = parent;
  kind = CallKind.call;
  depth = depth;
  from = address_of from;
  to = some (address_of to);
  value = value;
  gas_limit = 90000;
  gas_used = 21000;
  succeeded = true;
  selector = none;
}

abbrev pub root_frame : Call
root_frame = call_at 0 none 0 1 2 0

abbrev pub payout_frame : Call
payout_frame = call_at 1 (some 0) 1 2 3 5

abbrev pub reentry_frame : Call
reentry_frame = call_at 2 (some 1) 2 3 2 0

abbrev pub two_frames : FactArenaBuilder
two_frames = record {
  calls = root_frame ∷ payout_frame ∷ [];
  storage_changes = [];
  logs = [];
  token_transfers = [];
}

abbrev pub balance_change : StorageChange
balance_change = record {
  call_id = 2;
  slot = record { contract = address_of 2; key = word_of 0 };
  before = word_of 5;
  after = word_of 0;
}

abbrev pub transfer_log : LogEvent
transfer_log = record {
  id = 0;
  call_id = 2;
  address = address_of 4;
  topics = [];
  bytes = [];
  log_index = 0;
}

abbrev pub transfer : TokenTransfer
transfer = record {
  log_id = 0;
  token = address_of 4;
  from = address_of 2;
  to = address_of 3;
  amount = 7;
}

abbrev pub reentrant_builder : FactArenaBuilder
reentrant_builder = record {
  calls = root_frame ∷ payout_frame ∷ reentry_frame ∷ [];
  storage_changes = balance_change ∷ [];
  logs = transfer_log ∷ [];
  token_transfers = transfer ∷ [];
}

abbrev pub reentrant_arena : FactArena
reentrant_arena = record {
  calls = root_frame ∷ payout_frame ∷ reentry_frame ∷ [];
  storage_changes = balance_change ∷ [];
  logs = transfer_log ∷ [];
  token_transfers = transfer ∷ [];
}

abbrev pub reentrant_trace : Trace
reentrant_trace = record {
  metadata = record {
    transaction_hash = word_of 9;
    chain_id = 1;
    block_number = 100;
    source = TraceSource.archive_node_rpc "node";
  };
  block = record { number = 100; timestamp = 1000; chain_id = 1; base_fee = none };
  transaction = record {
    hash = word_of 9;
    from = address_of 1;
    to = some (address_of 2);
    value = 0;
    nonce = 0;
    gas_used = 63000;
    status = TxStatus.success;
  };
  arena = reentrant_arena;
}

abbrev pub clause : String → Requiredness → CompiledPredicate → CompiledEvidence
clause name requiredness predicate = record {
  name = name;
  requiredness = requiredness;
  predicate = predicate;
}

abbrev pub reentrant_call : CompiledPredicate
reentrant_call = record {
  kind = "call";
  attributes = record { name = "reentrant"; value = bool_value true } ∷ [];
}

abbrev pub any_write : CompiledPredicate
any_write = record { kind = "storage"; attributes = [] }

abbrev pub delegated_call : CompiledPredicate
delegated_call = record {
  kind = "call";
  attributes = record { name = "kind"; value = ident_value "Delegate" } ∷ [];
}

abbrev pub write_follows_reentry : CompiledSequence
write_follows_reentry = record { steps = 0 ∷ 1 ∷ []; within_seconds = none }

abbrev pub write_in_reentry : CompiledSameCall
write_in_reentry = record { members = 0 ∷ 1 ∷ [] }

abbrev pub reentrancy : CompiledPattern
reentrancy = record {
  id = "reentrancy";
  version = 1;
  family = "reentrancy";
  severity = Severity.high;
  tags = [];
  references = [];
  evidence =
      clause "callback" Requiredness.required reentrant_call
      ∷ clause "write" Requiredness.required any_write
      ∷ clause "proxy" Requiredness.required delegated_call
      ∷ [];
  constraint = and_of (cons (evidence 0) (cons (evidence 1) (cons (not_of (evidence 2)) nil)));
  sequence = some write_follows_reentry;
  same_call = some write_in_reentry;
}

abbrev pub callback_binding : Binding
callback_binding = record { fact = call_ref 2; order = some 2; unresolved_attrs = [] }

abbrev pub write_binding : Binding
write_binding = record { fact = storage_change_ref 0; order = some 2; unresolved_attrs = [] }

abbrev pub reentrancy_matches : List (List Binding)
reentrancy_matches = (callback_binding ∷ []) ∷ (write_binding ∷ []) ∷ [] ∷ []

abbrev pub reentrancy_candidate : CandidateMatch
reentrancy_candidate = record {
  pattern_id = "reentrancy";
  pattern_version = 1;
  pattern_family = "reentrancy";
  pattern_severity = Severity.high;
  bindings =
      record { evidence = 0; fact = call_ref 2 }
      ∷ record { evidence = 1; fact = storage_change_ref 0 }
      ∷ [];
  metadata = record { unresolved_attributes = []; sequence_checked = true };
}

pub reentrant-build : build reentrant_builder ≡ ok reentrant_arena
unfolding build
reentrant-build = refl

pub reentrant-WellFormed : WellFormed reentrant_trace.arena
reentrant-WellFormed = (build-WellFormed reentrant_builder reentrant_arena reentrant-build).1

pub reentrant-IsIndexed : IsIndexed reentrant_trace.arena
reentrant-IsIndexed = record {
  call_ids = (refl, (refl, (refl, tt)));
  log_ids = (refl, tt);
  few_changes = omega arith;
  few_transfers = omega arith;
}

pub reentrant-found :
    find_candidates reentrant_trace (build_index reentrant_trace) reentrancy
    ≡ ok (reentrancy_candidate ∷ [])
unfolding find_candidates build_index storage_change
reentrant-found = refl
