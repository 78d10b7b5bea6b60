-- ===== src/Api/Filters.antt =====
-- Filters, which classify events by rules of the workspace (api/src/filters).
pub mod Evaluator
pub mod Service
pub mod Compiler
pub mod Backfill
