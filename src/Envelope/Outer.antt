-- ===== src/Envelope/Outer.antt =====
-- envelope/outer.rs: `OuterEnvelope`, its encoding, its parser and its opening.
use mef.Prelude.{
  ℕ, ◌+◌, not, ◌||◌, List, [], ◌∷◌, Bytes, length, ltb, ◌==◌, bytes_eq, to_be, from_be, codes,
  u8_max, u32_max, usize_max, checked_add, saturating_add, try_from,
}
use mef.Error.{
  Result, ok, ◌>>=◌, ◌>>◌, fail_if, ok_or, invalid_frame, invalid_length, envelope_expired,
}
use mef.Limits.{max_ciphertext_len}
use mef.Wire.{index, slice, copy_at, concat}
use mef.Vec.{any}
use mef.Crypto.Suite
use mef.Crypto.Suite.{AeadSuite, x_cha_cha20_poly1305}
use mef.Crypto.Primitives.{Primitives}
use mef.Crypto.Aead.{Ciphertext, from_parts, open_ciphertext, body_len_fits}
use mef.Crypto.Kdf.{derive_aead_key}
use mef.Keys.Dh.{DhPublicKey, DhSecretKey, diffie_hellman}
use mef.Frame.Format.{InnerFrame, decode_prefix}
use mef.Envelope.Capability.{MailboxCapability, TransportMessageId}

abbrev pub outer_magic : Bytes
outer_magic = codes "MEO"

abbrev pub outer_version : ℕ
outer_version = 1

abbrev pub outer_fixed_len : ℕ
outer_fixed_len = 3 + 1 + 1 + 32 + 16 + 8 + 32 + 1 + 4

abbrev pub outer_suite : AeadSuite
outer_suite = x_cha_cha20_poly1305

abbrev pub outer_label : Bytes
outer_label = codes "outer-envelope-v1"

pub record OuterEnvelope : Type 0 where
  pub mailbox : MailboxCapability
  pub message_id : TransportMessageId
  pub expires_at_unix : ℕ
  pub sender_ephemeral : DhPublicKey
  pub ciphertext : Ciphertext

-- What `encode_aad` appends, in its order.
abbrev pub aad_segments :
    MailboxCapability → TransportMessageId → ℕ → DhPublicKey → ℕ → ℕ → List Bytes
aad_segments mailbox message_id expires_at sender nonce_len body_len =
    outer_magic
    ∷ (outer_version ∷ [])
    ∷ (Suite.id outer_suite ∷ [])
    ∷ mailbox
    ∷ message_id
    ∷ to_be 8 expires_at
    ∷ sender
    ∷ (nonce_len ∷ [])
    ∷ to_be 4 body_len
    ∷ []

unfoldable pub encode_aad :
    MailboxCapability → TransportMessageId → ℕ → DhPublicKey → ℕ → Result Bytes
encode_aad mailbox message_id expires_at sender body_len = do
  len ← ok_or (try_from u32_max body_len) invalid_length
  nonce_len ← ok_or (try_from u8_max (Suite.nonce_len outer_suite)) invalid_length
  let aad = concat (aad_segments mailbox message_id expires_at sender nonce_len len)
  fail_if (not (length aad == outer_fixed_len)) invalid_frame
  ok aad

unfoldable pub from_ciphertext :
    MailboxCapability → TransportMessageId → ℕ → DhPublicKey → Ciphertext → Result OuterEnvelope
from_ciphertext mailbox message_id expires_at sender c = do
  fail_if (not (Suite.same c.suite outer_suite)) invalid_frame
  aad ← encode_aad mailbox message_id expires_at sender (length c.body)
  fail_if (not (length aad == outer_fixed_len)) invalid_frame
  ok (record {
    mailbox = mailbox;
    message_id = message_id;
    expires_at_unix = expires_at;
    sender_ephemeral = sender;
    ciphertext = c;
  })

unfoldable pub envelope_aad : OuterEnvelope → Result Bytes
envelope_aad e =
    encode_aad e.mailbox e.message_id e.expires_at_unix e.sender_ephemeral
      (length e.ciphertext.body)

unfoldable pub encode : OuterEnvelope → Result Bytes
unfolding envelope_aad
encode e = do
  aad ← envelope_aad e
  with_nonce ← ok_or (checked_add usize_max (length aad) (length e.ciphertext.nonce)) invalid_length
  total ← ok_or (checked_add usize_max with_nonce (length e.ciphertext.body)) invalid_length
  ok (concat (aad ∷ e.ciphertext.nonce ∷ e.ciphertext.body ∷ []))

unfoldable pub decode : Bytes → Result OuterEnvelope
decode bytes = do
  fail_if
      (ltb (length bytes) outer_fixed_len
        || ltb (saturating_add usize_max max_ciphertext_len (outer_fixed_len + 24)) (length bytes))
      invalid_frame
  found_magic ← slice 0 3 bytes
  fail_if (not (bytes_eq found_magic outer_magic)) invalid_frame
  found_version ← index 3 bytes
  fail_if (not (found_version == outer_version)) invalid_frame
  suite_id ← index 4 bytes
  suite ← Suite.from_id suite_id
  fail_if (not (Suite.same suite outer_suite)) invalid_frame
  mailbox ← copy_at 5 32 bytes
  message_id ← copy_at 37 16 bytes
  expires_at ← copy_at 53 8 bytes
  sender ← copy_at 61 32 bytes
  nonce_len ← index 93 bytes
  body_len_bytes ← copy_at 94 4 bytes
  body_len ← ok_or (try_from usize_max (from_be body_len_bytes)) invalid_length
  fail_if (not (nonce_len == Suite.nonce_len outer_suite) || not (body_len_fits body_len))
      invalid_frame
  with_nonce ← ok_or (checked_add usize_max outer_fixed_len nonce_len) invalid_length
  expected ← ok_or (checked_add usize_max with_nonce body_len) invalid_length
  fail_if (not (length bytes == expected)) invalid_frame
  let nonce_end = outer_fixed_len + nonce_len
  nonce ← slice outer_fixed_len nonce_end bytes
  body ← slice nonce_end (length bytes) bytes
  ciphertext ← from_parts outer_suite nonce body
  from_ciphertext mailbox message_id (from_be expires_at) sender ciphertext

-- `OuterEnvelope::open`.
unfoldable pub open_envelope : Primitives → OuterEnvelope → DhSecretKey → ℕ → Result Bytes
open_envelope p e secret now = do
  fail_if (ltb e.expires_at_unix now) envelope_expired
  shared ← diffie_hellman p secret e.sender_ephemeral
  key ← derive_aead_key p e.mailbox outer_label shared
  aad ← envelope_aad e
  open_ciphertext p key e.ciphertext aad

-- `plaintext[consumed..]` panics when the frame is longer than the plaintext.
unfoldable pub open_inner : Primitives → OuterEnvelope → DhSecretKey → ℕ → Result InnerFrame
unfolding open_envelope
open_inner p e secret now = do
  plaintext ← open_envelope p e secret now
  (frame, consumed) ← decode_prefix plaintext
  padding ← slice consumed (length plaintext) plaintext
  fail_if (any (λ byte. not (byte == 0)) padding) invalid_frame
  ok frame
