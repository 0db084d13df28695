-- ===== src/Api.antt =====
-- dashboard/frontend/src/lib/api.ts: the client of the dashboard's backend.
pub mod Types
pub mod Call
pub mod Fetch
