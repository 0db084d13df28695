-- ===== src/Backend.antt =====
-- dashboard/backend/app: the other side of the API, which reads requests, asks the SPIRE server by
-- its command line, and keeps the audit events.
pub mod Events
pub mod Schemas
pub mod Routes
pub mod Handlers
pub mod Policy
pub mod Flow
pub mod Patterns
pub mod Spire
pub mod Registration
pub mod Summary
pub mod Rotation
pub mod Socket
pub mod App
pub mod Metrics
pub mod Oidc
mod Tests
