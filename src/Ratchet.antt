-- ===== src/Ratchet.antt =====
-- ratchet/: the double ratchet of one session.
pub mod Schedule
pub mod State
pub mod Decrypt
pub mod Atomicity
pub mod Skipped
pub mod Invariant
pub mod Init
pub mod History
pub mod Receive
pub mod Order
pub mod Stale
pub mod Exchange
pub mod Rotation
pub mod Late
pub mod Start
pub mod First
pub mod Persistence
pub mod Step
pub mod Turn
pub mod Linked
