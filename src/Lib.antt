-- ===== src/Lib.antt =====
-- Verification library of Rootcause, a structural exploit classifier for EVM traces.
--
-- A trace is an arena of facts: calls, storage changes, logs and token transfers. The crate ingestion
-- makes it of a document whose fields are text. A pattern, validated and compiled by the crate dsl,
-- names evidence clauses, a constraint over them, and perhaps a sequence and a same-call group. The
-- matcher looks for facts that satisfy the clauses and gives candidates; grounding checks each
-- candidate again from the trace, trusting none of it, and gives a verdict.
--
-- Files, and the code that they are about:
--   Facts/Types, Facts/Trace   crates/fact-model/src: the plain facts and the trace
--   Facts/Arena                arena.rs: `FactArena`, `FactArenaBuilder`, `build`; NetValue:
--                              `net_value_extracted`
--   Dsl/Ir                     crates/dsl/src/ir.rs: compiled patterns
--   Dsl/Ast, Schema, Diagnostics
--                              ast.rs and span.rs, schema.rs, diagnostics.rs
--   Dsl/Validate               validate.rs: `validate`, part by part
--   Dsl/Compile                compile.rs: `compile`
--   Ingestion/Raw, Error       crates/ingestion/src: raw.rs, error.rs
--   Ingestion/HexUtil          hex_util.rs: hexadecimal fields
--   Ingestion/Normalize        normalize.rs: a call's facts; Walk: `walk_tree` and `normalize`
--   Ingestion/Build, Pipeline  build.rs `build`, pipeline.rs `ingest`
--   Matcher/Constraint         crates/matcher/src/constraint.rs: `holds`, `positive_leaves`
--   Matcher/Identity           identity.rs `producing_call`, ordering.rs `order_key`
--   Matcher/Sequence           sequence.rs: `resolve`, `permits`
--   Matcher/Index              index.rs: `TraceIndex::build`, `is_reentrant`
--   Matcher/Hex, Attrs, Ancestry, Order, Predicate
--                              predicate.rs: `evaluate` and the six kinds of predicate
--   Matcher/SameCall           engine.rs `resolve_same_call`
--   Matcher/Engine             engine.rs `find_candidates`, and the entry points of lib.rs
--   Grounding/Status           crates/grounding/src: status.rs, report.rs and error.rs
--   Grounding/Polarity         polarity.rs: `analyze`
--   Grounding/Verifier         verifier.rs and verifiers.rs
--   Grounding/Relations        engine.rs `verify_sequence` and `verify_same_call`
--   Grounding/Aggregate        engine.rs `aggregate_status` and `compute_confidence`
--   Grounding/Engine           engine.rs `ground`
--   Prelude                    numbers, lists, maps, results and sorts that all of them share
--   Tests                      concrete traces, patterns and documents, and runs on them
--
-- How the code is written here. Numbers are natural numbers; an id or a length that the source
-- converts to u32 keeps the conversion, with its saturation or its panic (`none`), and the depth of
-- a call wraps as a u16. A byte array is the list of its bytes, a text attribute the list of its
-- UTF-8 bytes. A `HashMap` is an association list and a `HashSet` a list with no repetition, in
-- order of insertion; where the source iterates over one, its result is sorted or any order serves.
-- A stable `sort_by_key` is an insertion sort. `Result` and `Option` are values, `?` is their bind,
-- a loop over a vector is structural recursion.
--
-- Two loops are on fuel. The walk up the parents of a call has one round for each call of the arena
-- and one to find that there is no parent. The walk over the call tree of a document has one round for
-- each call of the tree; `Normalize/PreOrder` compares it with a recursive traversal.
--
-- Where the source panics, the model has a value: `none` of an arena's ids, and `panicked` of
-- `CompileError` and `IngestionError`, which also has `out_of_fuel`. A diagnostic's text is a
-- constructor of `Problem`, the text of an unsupported feature one of `Feature`, and the path of a call
-- in a document the list of its indices, the innermost first.
--
-- `IsIndexed` says that the ids of calls and logs are their positions in the arena, which is how
-- `next_call_id` and `next_log_id` hand them out; `build` itself does not check it.
--
-- Not modelled: serde and `Display`, but for the text of addresses and words; the candidate's hash,
-- the explanation and the merged list of unresolved attributes of a grounding result, which are
-- texts for the reader; the lexer and the parser of the dsl, and the rendering of diagnostics; and
-- the crates converters, taxonomy, benchmark-harness and cli. Reading a source of bytes and
-- `serde_json` are parameters of `ingest`. A message of the source that a verdict carries is a
-- constructor of `Reason`.
mod Prelude
pub mod Facts
pub mod Dsl
pub mod Ingestion
pub mod Matcher
pub mod Grounding
mod Tests
