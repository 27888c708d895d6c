-- ===== src/Httpapi.antt =====
-- internal/httpapi: the handlers by which the dashboard manages accounts, project members, projects
-- and policy rules, and those that an SDK calls.
pub mod Guards
pub mod Accounts
pub mod Members
pub mod Projects
pub mod Purge
pub mod SdkControl
pub mod Policies
pub mod Ingestion
pub mod Changes
pub mod Kept
pub mod Distinct
pub mod Privilege
pub mod Tests
