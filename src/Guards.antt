-- ===== src/Guards.antt =====
-- http/guards.rs: the same-origin check and the redirect check.
pub mod Origin
pub mod Redirect
