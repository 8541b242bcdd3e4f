-- ===== src/Crypto.antt =====
-- store/crypto.rs: sealed values, the keyring, and the pass that moves rows to the active key.
pub mod Envelope
pub mod Opening
pub mod Rotation
pub mod Reseal
