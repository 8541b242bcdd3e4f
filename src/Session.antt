-- ===== src/Session.antt =====
-- session.rs: the session state machine, by what each child models or proves.
pub mod Types
pub mod Entry
pub mod Map
pub mod Refresh
pub mod Kill
pub mod Sweep
pub mod Reaping
pub mod Newest
pub mod Minting
pub mod Sound
pub mod Hashes
pub mod Consistent
pub mod Refreshing
pub mod Answers
pub mod Killing
pub mod Creating
pub mod Health
pub mod Logout
pub mod Finding
pub mod Grace
pub mod Issued
pub mod Coalescing
