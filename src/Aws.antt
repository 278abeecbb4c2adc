-- ===== src/Aws.antt =====
-- The AWS provider: pkg/providers/cluster/aws.
pub mod Batches
pub mod Cleanup
pub mod StateBucket
pub mod Version
