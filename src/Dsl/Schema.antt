-- ===== src/Dsl/Schema.antt =====
-- crates/dsl/src/schema.rs: the predicate kinds, their attributes and the values these take.
use rootcause.Prelude.{Bool, true, false, Option, List, [], ◌∷◌, String, find, ◌==◌, string_Eq}

pub data AttrShape : Type 0 where
  enum_shape : List String → AttrShape
  str_shape int_shape bool_shape : AttrShape

pub record AttrSchema : Type 0 where
  pub name : String
  pub shape : AttrShape
  pub required : Bool

pub record PredicateSchema : Type 0 where
  pub kind : String
  pub grounds_against : String
  pub attrs : List AttrSchema

abbrev mandatory : String → AttrShape → AttrSchema
mandatory name shape = record { name = name; shape = shape; required = true }

abbrev possible : String → AttrShape → AttrSchema
possible name shape = record { name = name; shape = shape; required = false }

abbrev pub call_kind_values : List String
call_kind_values =
    "External" ∷ "Internal" ∷ "Delegate" ∷ "StaticCall" ∷ "Create" ∷ "SelfDestruct" ∷ []

abbrev pub direction_values : List String
direction_values = "In" ∷ "Out" ∷ []

abbrev pub tx_status_values : List String
tx_status_values = "Success" ∷ "Reverted" ∷ []

abbrev pub call_schema : PredicateSchema
call_schema = record {
  kind = "call";
  grounds_against = "fact_model::Call";
  attrs =
      mandatory "kind" (enum_shape call_kind_values)
      ∷ possible "reentrant" bool_shape
      ∷ possible "value_flow" (enum_shape direction_values)
      ∷ possible "min_value" int_shape
      ∷ possible "selector" str_shape
      ∷ possible "succeeded" bool_shape
      ∷ possible "parent_kind" (enum_shape call_kind_values)
      ∷ possible "ancestor_kind" (enum_shape call_kind_values)
      ∷ [];
}

abbrev pub role_values : List String
role_values = "PriceOracle" ∷ "Balance" ∷ "Accounting" ∷ "AccessControl" ∷ []

abbrev pub storage_schema : PredicateSchema
storage_schema = record {
  kind = "storage";
  grounds_against = "fact_model::StorageChange";
  attrs =
      mandatory "changed" bool_shape
      ∷ possible "role" (enum_shape role_values)
      ∷ possible "slot" str_shape
      ∷ possible "call_kind" (enum_shape call_kind_values)
      ∷ [];
}

abbrev pub value_flow_schema : PredicateSchema
value_flow_schema = record {
  kind = "value_flow";
  grounds_against = "fact_model::ValueFlow";
  attrs =
      mandatory "direction" (enum_shape direction_values)
      ∷ possible "min" int_shape
      ∷ possible "max" int_shape
      ∷ [];
}

abbrev pub token_transfer_schema : PredicateSchema
token_transfer_schema = record {
  kind = "token_transfer";
  grounds_against = "fact_model::TokenTransfer";
  attrs =
      mandatory "direction" (enum_shape direction_values)
      ∷ possible "unexpected" bool_shape
      ∷ possible "token" str_shape
      ∷ [];
}

abbrev pub transaction_schema : PredicateSchema
transaction_schema = record {
  kind = "transaction";
  grounds_against = "fact_model::Transaction";
  attrs = mandatory "status" (enum_shape tx_status_values) ∷ possible "gas_used_min" int_shape ∷ [];
}

abbrev pub log_schema : PredicateSchema
log_schema = record {
  kind = "log";
  grounds_against = "fact_model::LogEvent";
  attrs = mandatory "topic0" str_shape ∷ possible "decoded" bool_shape ∷ [];
}

abbrev pub all_schemas : List PredicateSchema
all_schemas =
    call_schema ∷ storage_schema ∷ value_flow_schema ∷ token_transfer_schema ∷ transaction_schema
    ∷ log_schema ∷ []

-- `schema::lookup`
unfoldable pub schema_for : String → Option PredicateSchema
schema_for kind = find (λ (s : PredicateSchema). s.kind == kind) all_schemas

abbrev pub severity_values : List String
severity_values = "Low" ∷ "Medium" ∷ "High" ∷ "Critical" ∷ []
