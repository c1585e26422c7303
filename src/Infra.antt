-- ===== src/Infra.antt =====
-- src/infra/: the rate limiter.
pub mod Counters
pub mod RateLimit
pub mod Window
