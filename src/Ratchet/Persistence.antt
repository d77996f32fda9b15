-- ===== src/Ratchet/Persistence.antt =====
-- ratchet/persistence.rs: the snapshot of a session. A `StateSealKey` wraps an AEAD key of 32 bytes
-- and is that key here; zeroising the plaintext leaves no value to state.
pub mod Codec
pub mod Snapshot
pub mod Seal
pub mod Entries
pub mod Layout
pub mod RoundTrip
pub mod Restore
pub mod Rollback
pub mod Untrusted
pub mod Guarded
