-- ===== src/Witnesses.antt =====
-- Concrete inputs at which the theorems apply.
pub mod Samples
mod Settings
mod Repository
mod Records
mod Clients
mod Deployed
mod Secrets
mod Permissions
mod Providers
mod Sweep
mod Volumes
