-- ===== src/Api.antt =====
-- internal/api: the limits that the API server keeps for each app.
pub mod Budget
