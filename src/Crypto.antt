-- ===== src/Crypto.antt =====
-- crypto/: the wrappers round the primitives.
pub mod Suite
pub mod Primitives
pub mod Aead
pub mod Seal
pub mod Kdf
