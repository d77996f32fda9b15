-- ===== src/Frame/Seal.antt =====
-- frame/wire.rs: `InnerFrame::seal`, which draws the nonce.
pub mod Opens
use mef.Prelude.{Bytes, length, usize_max, checked_add}
use mef.Error.{ok_or, invalid_length}
use mef.Effect.{M, lift, ◌>>=◌, ◌>>◌}
use mef.Crypto.Suite.{AeadSuite}
use mef.Crypto.Primitives.{Primitives}
use mef.Crypto.Aead.{aead_tag_len}
use mef.Crypto.Seal.{seal}
use mef.Frame.Header.{FrameHeader}
use mef.Frame.Format.{InnerFrame, encode_aad, from_ciphertext}

unfoldable pub seal_frame :
    Primitives → Bytes → AeadSuite → FrameHeader → Bytes → M (Unit {0}) InnerFrame
seal_frame p key suite header plaintext = do
  body_len ← lift (ok_or (checked_add usize_max (length plaintext) aead_tag_len) invalid_length)
  aad ← lift (encode_aad suite header body_len)
  ciphertext ← seal p key suite aad plaintext
  lift (from_ciphertext header ciphertext)
