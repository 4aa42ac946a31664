-- ===== src/Subnet/List.antt =====
-- internal/domain/subnetlist/subnetlist.go: one list of subnets.
pub mod Defs
pub mod Coverage
pub mod Loading
pub mod History
