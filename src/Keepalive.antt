-- ===== src/Keepalive.antt =====
-- keepalive.rs: when each custody's grant is refreshed upstream.
pub mod Scheduler
pub mod Taking
pub mod Scheduled
pub mod Duty
pub mod Backoff
pub mod Worker
pub mod Revocation
