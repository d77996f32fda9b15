-- ===== src/Handshake/Bundle.antt =====
-- handshake.rs: `OneTimePrekeyPublic`, and `ResponderPrekeyBundle` with its encoding, its parser
-- and its verification.
pub mod RoundTrip
pub mod Canonical
use mef.Prelude.{
  ℕ, zero, suc, ◌+◌, not, List, [], ◌∷◌, Option, none, some, Bytes, length, ◌==◌, bytes_eq, to_be,
  from_be, codes, replicate,
}
use mef.Error.{Result, ok, err, ◌>>=◌, ◌>>◌, fail_if, invalid_frame}
use mef.Wire.{index, slice, copy_at, concat}
use mef.Crypto.Primitives.{Primitives}
use mef.Keys.Dh.{DhPublicKey}
use mef.Keys.Identity.{parse_public}
use mef.Keys.Prekey.{SignedPrekey, verify_prekey}
use mef.Handshake.Message.{IdentityDhPublic, handshake_version, verify_identity}

abbrev pub bundle_magic : Bytes
bundle_magic = codes "MEB"

abbrev pub bundle_len : ℕ
bundle_len = 3 + 1 + 32 + 32 + 64 + 4 + 32 + 8 + 64 + 1 + 4 + 32

pub record OneTimePrekeyPublic : Type 0 where
  pub id : ℕ
  pub public : DhPublicKey

pub record ResponderPrekeyBundle : Type 0 where
  pub identity : IdentityDhPublic
  pub signed_prekey : SignedPrekey
  pub one_time_prekey : Option OneTimePrekeyPublic

-- The byte that says whether there is a one-time prekey, its identifier and its key.
unfoldable pub offer_segments : Option OneTimePrekeyPublic → List Bytes
offer_segments none = (0 ∷ []) ∷ to_be 4 0 ∷ replicate 32 0 ∷ []
offer_segments (some prekey) = (1 ∷ []) ∷ to_be 4 prekey.id ∷ prekey.public ∷ []

-- What `ResponderPrekeyBundle::encode` appends, in its order.
abbrev pub bundle_segments : ResponderPrekeyBundle → List Bytes
bundle_segments b =
    bundle_magic
    ∷ (handshake_version ∷ [])
    ∷ b.identity.signing
    ∷ b.identity.dh
    ∷ b.identity.signature
    ∷ to_be 4 b.signed_prekey.key_id
    ∷ b.signed_prekey.public
    ∷ to_be 8 b.signed_prekey.expires_at_unix
    ∷ b.signed_prekey.signature
    ∷ offer_segments b.one_time_prekey

unfoldable pub encode_bundle : ResponderPrekeyBundle → Bytes
encode_bundle b = concat (bundle_segments b)

-- The `match` on `bytes[240]`.
unfoldable pub decode_offer : ℕ → Bytes → Result (Option OneTimePrekeyPublic)
decode_offer zero bytes = do
  unused ← slice 241 277 bytes
  fail_if (not (bytes_eq unused (replicate 36 0))) invalid_frame
  ok none
decode_offer (suc zero) bytes = do
  prekey_id ← copy_at 241 4 bytes
  public ← copy_at 245 32 bytes
  ok (some (record { id = from_be prekey_id; public = public }))
decode_offer (suc (suc n)) bytes = err invalid_frame

unfoldable pub decode_bundle : Primitives → Bytes → Result ResponderPrekeyBundle
decode_bundle p bytes = do
  fail_if (not (length bytes == bundle_len)) invalid_frame
  found_magic ← slice 0 3 bytes
  fail_if (not (bytes_eq found_magic bundle_magic)) invalid_frame
  found_version ← index 3 bytes
  fail_if (not (found_version == handshake_version)) invalid_frame
  signing_bytes ← copy_at 4 32 bytes
  signing ← parse_public p signing_bytes
  dh ← copy_at 36 32 bytes
  signature ← copy_at 68 64 bytes
  let identity : IdentityDhPublic = record { signing = signing; dh = dh; signature = signature }
  verify_identity p identity
  prekey_id ← copy_at 132 4 bytes
  prekey ← copy_at 136 32 bytes
  expires_at ← copy_at 168 8 bytes
  prekey_signature ← copy_at 176 64 bytes
  tag ← index 240 bytes
  offer ← decode_offer tag bytes
  ok (record {
    identity = identity;
    signed_prekey = record {
      key_id = from_be prekey_id;
      public = prekey;
      expires_at_unix = from_be expires_at;
      signature = prekey_signature;
    };
    one_time_prekey = offer;
  })

-- `ResponderPrekeyBundle::verify`.
unfoldable pub verify_bundle : Primitives → ResponderPrekeyBundle → ℕ → Result (Unit {0})
verify_bundle p b now = do
  verify_identity p b.identity
  verify_prekey p b.signed_prekey b.identity.signing now
