-- ===== src/Envelope.antt =====
-- envelope/: what the transport carries, and the recipient's record of what was delivered.
pub mod Capability
pub mod Replay
pub mod Outer
pub mod Deliver
pub mod Once
pub mod Valid
pub mod RoundTrip
pub mod Sealed
pub mod Canonical
