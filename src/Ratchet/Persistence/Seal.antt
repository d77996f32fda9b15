-- ===== src/Ratchet/Persistence/Seal.antt =====
-- ratchet/persistence.rs: `seal_state`, which draws a nonce.
use mef.Prelude.{Bytes, length, u8_max, u32_max, try_from}
use mef.Error.{ok_or, invalid_length}
use mef.Effect.{M, lift, pure, ◌>>=◌}
use mef.Wire.{concat}
use mef.Crypto.Suite.{x_cha_cha20_poly1305}
use mef.Crypto.Primitives.{Primitives}
use mef.Crypto.Seal.{seal}
use mef.Ratchet.State.{RatchetState}
use mef.Ratchet.Persistence.Codec.{version, encode_state}
use mef.Ratchet.Persistence.Snapshot.{state_aad, snapshot_segments}

unfoldable pub seal_state : Primitives → RatchetState → Bytes → Bytes → M (Unit {0}) Bytes
seal_state p s key context = do
  aad ← lift (state_aad context version)
  plaintext ← lift (encode_state s)
  ciphertext ← seal p key x_cha_cha20_poly1305 aad plaintext
  body_len ← lift (ok_or (try_from u32_max (length ciphertext.body)) invalid_length)
  nonce_size ← lift (ok_or (try_from u8_max (length ciphertext.nonce)) invalid_length)
  pure
      (concat (snapshot_segments s.generation nonce_size body_len ciphertext.nonce ciphertext.body))
