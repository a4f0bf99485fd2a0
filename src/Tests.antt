-- ===== src/Tests.antt =====
-- Concrete traces and patterns, and the theorems applied to them.
mod Data
mod Facts
mod Matcher
mod Grounding
mod Dsl
mod Ingestion
