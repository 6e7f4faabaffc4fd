-- ===== src/RateLimit.antt =====
-- internal/ratelimit
pub mod FixedWindow
pub mod SlidingWindow
pub mod TokenBucket
pub mod Factory
