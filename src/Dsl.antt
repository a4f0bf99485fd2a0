-- ===== src/Dsl.antt =====
-- The crate `dsl`: patterns as written, their validation, and their compiled form.
pub mod Ir
pub mod Ast
pub mod Diagnostics
pub mod Schema
pub mod Validate
pub mod Compile
