-- ===== src/Incident.antt =====
-- internal/service/incident.go and incident_hook.go over the table `incidents`
-- (internal/db/incidents.sql.go).
pub mod Store
pub mod Output
pub mod Service
pub mod Hook
pub mod Rows
pub mod Cases
pub mod Invariant
pub mod Calls
pub mod Lifecycle
pub mod Outcome
mod Tests
