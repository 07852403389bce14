-- ===== src/Tests.antt =====
-- The tests: runs at fixed inputs, a folder's module for each part.
pub mod Restore
pub mod Grants
pub mod Databases
pub mod Dispatch
pub mod Access
pub mod Releases
pub mod Roles
pub mod Backup
pub mod Compose
pub mod Params
pub mod Guard
pub mod Updates
pub mod Resolved
pub mod Candidates
