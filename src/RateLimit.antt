-- ===== src/RateLimit.antt =====
-- internal/domain/ratelimit: limiters over a repository of attempts, and the checker that picks one.
pub mod Limiter
pub mod Checker
pub mod Keys
