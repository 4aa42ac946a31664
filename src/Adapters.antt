-- ===== src/Adapters.antt =====
-- internal/adapters: how a change of the subnet lists reaches the policers.
pub mod LocalPublisher
pub mod Redis
pub mod Sync
