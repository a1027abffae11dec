-- ===== src/Engine.antt =====
-- internal/engine: the record of work that the main model and its sub-agents share.
pub mod Tree
pub mod Status
