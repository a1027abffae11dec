-- ===== src/Agent.antt =====
-- internal/agent: the conversation with a model.
pub mod History
pub mod Repeat
