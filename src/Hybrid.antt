-- ===== src/Hybrid.antt =====
-- hybrid.rs: the handshake that adds an ML-KEM-768 secret to the classical one.
pub mod Layout
pub mod Bundle
pub mod Message
pub mod Agreement
pub mod Calls
pub mod Matches
pub mod Front
pub mod Canonical
pub mod Segments
pub mod RoundTrip
pub mod Directory
pub mod Valid
