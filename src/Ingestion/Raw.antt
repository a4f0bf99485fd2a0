-- ===== src/Ingestion/Raw.antt =====
-- crates/ingestion/src/raw.rs: a trace document, its fields still text.
use rootcause.Prelude.{Bool, Option, List, String}

pub record RawTransaction : Type 0 where
  pub hash : String
  pub from : String
  pub to : Option String
  pub value : String
  pub nonce : String
  pub gas_used : String
  pub status : String

pub record RawBlock : Type 0 where
  pub number : String
  pub timestamp : String
  pub chain_id : String
  pub base_fee : Option String

pub record RawStorageChange : Type 0 where
  pub contract : String
  pub slot : String
  pub before : String
  pub after : String

pub record RawLog : Type 0 where
  pub address : String
  pub topics : List String
  pub bytes : String  -- the field `data`
  pub log_index : String

-- The fields of a `RawCall` but its children.
pub record RawFrame : Type 0 where
  pub kind : String
  pub from : String
  pub to : Option String
  pub value : String
  pub gas_limit : String
  pub gas_used : String
  pub succeeded : Bool
  pub input : Option String
  pub storage_changes : List RawStorageChange
  pub logs : List RawLog

-- A call with its child calls.
mutual
  pub data RawCall : Type 0 where
    raw_call : RawFrame → RawCalls → RawCall

  pub data RawCalls : Type 0 where
    no_calls : RawCalls
    more_calls : RawCall → RawCalls → RawCalls

pub record RawTraceDocument : Type 0 where
  pub transaction : RawTransaction
  pub block : RawBlock
  pub root : RawCall
