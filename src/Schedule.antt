-- ===== src/Schedule.antt =====
-- internal/schedule: when a schedule is due and what it may do.
pub mod Cron
pub mod Spec
pub mod Allow
pub mod Doc
