-- ===== src/Ratelimit.antt =====
-- ratelimit.rs: the keyed token bucket.
pub mod Limiter
pub mod Budget
pub mod Rate
pub mod Retry
pub mod Table
