-- ===== src/Matcher.antt =====
-- The crate `matcher`: every candidate way in which a compiled pattern matches a trace.
pub mod Constraint
pub mod Identity
pub mod Binding
pub mod Sequence
pub mod Index
pub mod Hex
pub mod Ancestry
pub mod Attrs
pub mod Order
pub mod Predicate
pub mod SameCall
pub mod Engine
