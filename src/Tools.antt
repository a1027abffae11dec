-- ===== src/Tools.antt =====
-- internal/tools: the parts of the tools that keep state of their own.
pub mod Capped
pub mod Writes
pub mod Edits
