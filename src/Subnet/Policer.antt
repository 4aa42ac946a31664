-- ===== src/Subnet/Policer.antt =====
-- internal/domain/subnetlist/subnetpolicer.go: the policy over the two lists.
pub mod Defs
pub mod Reload
