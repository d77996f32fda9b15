-- ===== src/Envelope/Deliver.antt =====
-- envelope/outer.rs: `seal`, which draws a key pair, an identifier and a nonce, and
-- `open_inner_once`, which changes the replay cache. `seal` is `seal_envelope` here.
use mef.Prelude.{ℕ, ◌-◌, ◌++◌, length, replicate, ltb, usize_max, checked_add}
use mef.Error.{fail_if, ok_or, invalid_length}
use mef.Effect.{M, lift, pure, ◌>>=◌, ◌>>◌}
use mef.Limits.{max_ciphertext_len}
use mef.Crypto.Primitives.{Primitives}
use mef.Crypto.Aead.{aead_tag_len}
use mef.Crypto.Kdf.{derive_aead_key}
use mef.Crypto.Seal.{seal}
use mef.Keys.Dh.{DhPublicKey, DhSecretKey, generate, diffie_hellman}
use mef.Frame.Format as Frame
use mef.Frame.Format.{InnerFrame}
use mef.Envelope.Capability.{MailboxCapability, generate_id}
use mef.Envelope.Replay.{ReplayCache, check_and_insert}
use mef.Envelope.Outer.{
  OuterEnvelope, outer_label, outer_suite, encode_aad, from_ciphertext, open_inner,
}

unfoldable pub seal_envelope :
    Primitives → DhPublicKey → MailboxCapability → ℕ → InnerFrame → ℕ → M (Unit {0}) OuterEnvelope
seal_envelope p recipient mailbox expires_at inner_frame padding_len = do
  sender ← generate p
  shared ← lift (diffie_hellman p sender.secret recipient)
  key ← lift (derive_aead_key p mailbox outer_label shared)
  message_id ← generate_id p
  inner_bytes ← lift (Frame.encode inner_frame)
  plaintext_len ←
      lift (ok_or (checked_add usize_max (length inner_bytes) padding_len) invalid_length)
  lift (fail_if (ltb (max_ciphertext_len - aead_tag_len) plaintext_len) invalid_length)
  body_len ← lift (ok_or (checked_add usize_max plaintext_len aead_tag_len) invalid_length)
  let plaintext = inner_bytes ++ replicate padding_len 0
  aad ← lift (encode_aad mailbox message_id expires_at sender.public body_len)
  ciphertext ← seal p key outer_suite aad plaintext
  lift (from_ciphertext mailbox message_id expires_at sender.public ciphertext)

unfoldable pub open_inner_once :
    Primitives → OuterEnvelope → DhSecretKey → ℕ → M ReplayCache InnerFrame
unfolding check_and_insert
open_inner_once p e secret now = do
  frame ← lift (open_inner p e secret now)
  check_and_insert e.message_id e.expires_at_unix now
  pure frame
