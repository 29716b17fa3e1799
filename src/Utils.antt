-- ===== src/Utils.antt =====
-- utils/: backoff and rate limiting.
pub mod Retry
pub mod RateLimiter
pub mod Cache
