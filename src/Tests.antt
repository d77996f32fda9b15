-- ===== src/Tests.antt =====
-- Tests and examples, over concrete functions for the primitives.
mod Toy
mod Kem
mod Pair
mod Frames
mod Sessions
mod Late
mod Rotations
mod Identities
mod Handshakes
mod Snapshots
mod Deliveries
mod Prekeys
