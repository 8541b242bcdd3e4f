-- ===== src/Audit.antt =====
-- audit.rs: the sink in front of the writer.
pub mod Sink
pub mod Calls
pub mod Alone
pub mod Events
pub mod Accounting
