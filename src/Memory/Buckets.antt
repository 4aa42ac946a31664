-- ===== src/Memory/Buckets.antt =====
-- internal/storage/memory/bucketsdb.go: the store of attempts that is kept in memory.
pub mod Defs
pub mod Pruning
pub mod Timelines
pub mod Window
pub mod Refinement
pub mod Safety
pub mod Size
