-- ===== src/Custody.antt =====
-- custody.rs: taking a grant into custody, and renewing it upstream.
pub mod Grant
pub mod Renewal
pub mod Taken
