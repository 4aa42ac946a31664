-- ===== src/Memory.antt =====
-- internal/storage/memory: the stores of the local mode.
pub mod Buckets
pub mod Subnets
