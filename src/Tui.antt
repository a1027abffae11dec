-- ===== src/Tui.antt =====
-- internal/tui: the parts of the terminal interface that keep state of their own.
pub mod History
