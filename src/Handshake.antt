-- ===== src/Handshake.antt =====
-- handshake.rs: the prekey handshake.
pub mod Authenticated
pub mod Message
pub mod Verified
pub mod RoundTrip
pub mod Canonical
pub mod Bundle
pub mod Material
pub mod Agreement
pub mod Store
pub mod Valid
pub mod Refines
pub mod Lookup
pub mod Accepts
pub mod Service
pub mod Fresh
pub mod Serves
pub mod Started
pub mod Matches
pub mod Atomicity
pub mod Once
