-- ===== src/Memory/Subnets.antt =====
-- internal/storage/memory/subnetlistdb.go: the CIDR texts of each list.
pub mod Defs
pub mod Contents
pub mod Search
