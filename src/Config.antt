-- ===== src/Config.antt =====
-- pkg/config: the parsed nebari-config.yaml and its validation.
pub mod Value
pub mod Cluster
pub mod Dns
pub mod Certificate
pub mod Cron
pub mod Backups
pub mod TrustBundle
pub mod Nebari
