-- ===== src/Keys.antt =====
-- keys/: key agreement, identities and signed prekeys.
pub mod Dh
pub mod Identity
pub mod Prekey
