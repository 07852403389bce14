-- ===== src/ComposeValidate.antt =====
-- packages/shared/src/compose-validate.ts: what a compose document of an app may ask for.
pub mod Issues
pub mod Volumes
pub mod Containment
pub mod Services
pub mod Privileges
pub mod Document
pub mod Confinement
pub mod Accepted
