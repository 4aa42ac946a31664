-- ===== src/Subnet.antt =====
-- internal/domain/subnetlist: lists of subnets in memory, and the policy over two of them.
pub mod List
pub mod Policer
