-- ===== src/Ingest.antt =====
-- internal/ingest: registration, batch ingestion and the policy probe.
pub mod Time
pub mod Db
pub mod Exec
pub mod Admit
pub mod Authorize
pub mod Prepare
pub mod Persist
pub mod Stats
pub mod Policy
pub mod Batch
pub mod Register
pub mod Probe
pub mod Guard
pub mod Rows
pub mod Failures
pub mod Choice
pub mod Service
pub mod History
pub mod Accounting
pub mod Progress
pub mod Tests
