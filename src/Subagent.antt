-- ===== src/Subagent.antt =====
-- internal/subagent: path scopes (scope.go), the ready rule (ready.go) and the per-server lanes
-- (lanes.go).
pub mod Scope
pub mod Ready
pub mod Lanes
mod Tests
