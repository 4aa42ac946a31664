-- ===== src/App.antt =====
-- internal/app: the use cases, over the ports.
pub mod Password
pub mod RateLimiter
pub mod SubnetLists
