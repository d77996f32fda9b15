-- ===== src/Frame.antt =====
-- frame/: the inner frames and their wire format.
pub mod Header
pub mod Format
pub mod Seal
pub mod Valid
pub mod RoundTrip
pub mod Reassemble
pub mod Canonical
