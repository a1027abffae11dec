-- ===== src/Work.antt =====
-- internal/workledger and internal/gitctx: what a session has seen, and what becomes of a file that
-- it is about to overwrite.
pub mod Git
pub mod Seen
pub mod Restore
pub mod Keep
pub mod Ledger
mod Tests
