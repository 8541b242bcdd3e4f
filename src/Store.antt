-- ===== src/Store.antt =====
-- store/repo.rs and store/writer.rs: the tables, the statements on them, and the writer thread.
pub mod Rows
pub mod Statements
pub mod Writer
pub mod Atomic
pub mod Reaper
pub mod Integrity
pub mod Preserved
pub mod Txn
pub mod Restart
pub mod Restored
pub mod Grouped
pub mod Resumed
pub mod Resuming
pub mod Mirror
pub mod Mirrored
pub mod Killed
pub mod Started
pub mod Effects
pub mod Rotated
pub mod RotatedRows
pub mod Refreshed
pub mod Forgotten
pub mod Carried
