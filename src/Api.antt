-- ===== src/Api.antt =====
-- The HTTP interface: errors, guards and the table of routes of cmd/server/main.go.
pub mod Errors
pub mod Guards
pub mod Routes
pub mod Access
pub mod Reach
mod Tests
