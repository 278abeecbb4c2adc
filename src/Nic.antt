-- ===== src/Nic.antt =====
-- pkg/nic: the client that validates, deploys and destroys.
pub mod Platform
pub mod Keeps
pub mod Checks
pub mod Gitops
pub mod Secrets
pub mod Prepare
pub mod Deploy
pub mod Destroy
