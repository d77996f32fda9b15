-- ===== src/Handshake/Authenticated.antt =====
-- handshake.rs: `AuthenticatedHandshake`, and `RatchetRole` of ratchet/state.rs.
use mef.Prelude.{Bytes}
use mef.Keys.Dh.{DhKeyPair, DhPublicKey}

pub data RatchetRole : Type 0 where
  initiator responder : RatchetRole

pub record AuthenticatedHandshake : Type 0 where
  pub session_id : Bytes
  pub root_secret : Bytes
  pub role : RatchetRole
  pub local_ratchet : DhKeyPair
  pub remote_ratchet : DhPublicKey
