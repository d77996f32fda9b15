-- ===== src/Envelope/Capability.antt =====
-- envelope/capability.rs. A `MailboxCapability` wraps 32 bytes, a `TransportMessageId` 16; both are
-- those bytes here.
use mef.Prelude.{Bytes, [], ◌∷◌, codes}
use mef.Error.{Result}
use mef.Effect.{M}
use mef.Crypto.Primitives.{Primitives}
use mef.Crypto.Kdf.{blake3_id}
use mef.Crypto.Seal.{random_bytes}

abbrev pub MailboxCapability : Type 0
MailboxCapability = Bytes

abbrev pub TransportMessageId : Type 0
TransportMessageId = Bytes

-- `MailboxCapability::generate` and `TransportMessageId::generate`.
unfoldable pub generate_mailbox : Primitives → M (Unit {0}) MailboxCapability
unfolding random_bytes
generate_mailbox p = random_bytes p 32

unfoldable pub generate_id : Primitives → M (Unit {0}) TransportMessageId
unfolding random_bytes
generate_id p = random_bytes p 16

unfoldable pub storage_id : Primitives → MailboxCapability → Result Bytes
storage_id p mailbox = blake3_id p (codes "mailbox-capability-v1") (mailbox ∷ [])
