-- ===== src/Handshake/Message.antt =====
-- handshake.rs: `IdentityDhPublic`, and `InitiatorHandshake` with its encoding and its parser.
use mef.Prelude.{
  ℕ, zero, suc, ◌+◌, not, List, [], ◌∷◌, Option, none, some, Bytes, length, ◌==◌, bytes_eq, to_be,
  from_be, codes, replicate,
}
use mef.Error.{Result, ok, err, ◌>>=◌, ◌>>◌, fail_if, invalid_frame}
use mef.Wire.{index, slice, copy_at, concat}
use mef.Crypto.Primitives.{Primitives}
use mef.Keys.Dh.{DhPublicKey}
use mef.Keys.Identity
use mef.Keys.Identity.{IdentityPublicKey, IdentityKeyPair, parse_public, sign}

abbrev pub handshake_magic : Bytes
handshake_magic = codes "MEH"

abbrev pub handshake_version : ℕ
handshake_version = 1

abbrev pub identity_binding_label : Bytes
identity_binding_label = codes "handshake-identity-dh-v1"

abbrev pub message_len : ℕ
message_len = 3 + 1 + 32 + 32 + 64 + 32 + 32 + 4 + 1 + 4

pub record IdentityDhPublic : Type 0 where
  pub signing : IdentityPublicKey
  pub dh : DhPublicKey
  pub signature : Bytes

unfoldable pub identity_binding_transcript : DhPublicKey → Bytes
identity_binding_transcript dh = concat (identity_binding_label ∷ (0 ∷ []) ∷ dh ∷ [])

-- `IdentityDhPublic::verify`.
unfoldable pub verify_identity : Primitives → IdentityDhPublic → Result (Unit {0})
verify_identity p identity =
    Identity.verify p identity.signing (identity_binding_transcript identity.dh) identity.signature

-- `LocalIdentity::public`, of the signing key pair and the public half of the agreement key.
unfoldable pub identity_public : Primitives → IdentityKeyPair → DhPublicKey → IdentityDhPublic
identity_public p signing dh = record {
  signing = signing.public;
  dh = dh;
  signature = sign p signing (identity_binding_transcript dh);
}

pub record InitiatorHandshake : Type 0 where
  pub initiator_identity : IdentityDhPublic
  pub initiator_ephemeral : DhPublicKey
  pub initiator_ratchet : DhPublicKey
  pub signed_prekey_id : ℕ
  pub one_time_prekey_id : Option ℕ

-- The byte that says whether there is an identifier, and the four bytes of the identifier.
unfoldable pub one_time_segments : Option ℕ → List Bytes
one_time_segments none = (0 ∷ []) ∷ to_be 4 0 ∷ []
one_time_segments (some id) = (1 ∷ []) ∷ to_be 4 id ∷ []

-- What `InitiatorHandshake::encode` appends, in its order.
abbrev pub message_segments : InitiatorHandshake → List Bytes
message_segments m =
    handshake_magic
    ∷ (handshake_version ∷ [])
    ∷ m.initiator_identity.signing
    ∷ m.initiator_identity.dh
    ∷ m.initiator_identity.signature
    ∷ m.initiator_ephemeral
    ∷ m.initiator_ratchet
    ∷ to_be 4 m.signed_prekey_id
    ∷ one_time_segments m.one_time_prekey_id

unfoldable pub encode_message : InitiatorHandshake → Bytes
encode_message m = concat (message_segments m)

-- The `match` on `bytes[200]`.
unfoldable pub decode_one_time : ℕ → Bytes → Result (Option ℕ)
decode_one_time zero bytes = do
  unused ← slice 201 205 bytes
  fail_if (not (bytes_eq unused (replicate 4 0))) invalid_frame
  ok none
decode_one_time (suc zero) bytes = do id ← copy_at 201 4 bytes; ok (some (from_be id))
decode_one_time (suc (suc n)) bytes = err invalid_frame

unfoldable pub decode_message : Primitives → Bytes → Result InitiatorHandshake
decode_message p bytes = do
  fail_if (not (length bytes == message_len)) invalid_frame
  found_magic ← slice 0 3 bytes
  fail_if (not (bytes_eq found_magic handshake_magic)) invalid_frame
  found_version ← index 3 bytes
  fail_if (not (found_version == handshake_version)) invalid_frame
  signing_bytes ← copy_at 4 32 bytes
  signing ← parse_public p signing_bytes
  dh ← copy_at 36 32 bytes
  signature ← copy_at 68 64 bytes
  ephemeral ← copy_at 132 32 bytes
  ratchet ← copy_at 164 32 bytes
  prekey_id ← copy_at 196 4 bytes
  tag ← index 200 bytes
  one_time ← decode_one_time tag bytes
  let identity : IdentityDhPublic = record { signing = signing; dh = dh; signature = signature }
  verify_identity p identity
  ok (record {
    initiator_identity = identity;
    initiator_ephemeral = ephemeral;
    initiator_ratchet = ratchet;
    signed_prekey_id = from_be prekey_id;
    one_time_prekey_id = one_time;
  })
