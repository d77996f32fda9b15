-- ===== src/Hybrid/Message.antt =====
-- hybrid.rs: `HybridInitiatorHandshake` with its encoding and its parser.
use mef.Prelude.{not, Bytes, length, ◌==◌}
use mef.Error.{Result, ok, ◌>>=◌, ◌>>◌, fail_if, invalid_frame}
use mef.Wire.{slice, concat}
use mef.Crypto.Primitives.{Primitives}
use mef.Pq.{MlKem768Ciphertext, parse_ciphertext}
use mef.Handshake.Message.{InitiatorHandshake, encode_message, decode_message}
use mef.Hybrid.Layout.{front_segments, decode_front}

pub record HybridInitiatorHandshake : Type 0 where
  pub classical : InitiatorHandshake
  pub pq_ciphertext : MlKem768Ciphertext

-- `HybridInitiatorHandshake::encode`.
unfoldable pub encode_hybrid_message : HybridInitiatorHandshake → Bytes
encode_hybrid_message m = concat (front_segments (encode_message m.classical) m.pq_ciphertext)

-- `HybridInitiatorHandshake::decode`.
unfoldable pub decode_hybrid_message : Primitives → Bytes → Result HybridInitiatorHandshake
decode_hybrid_message p bytes = do
  (classical, ciphertext_start, ciphertext_end) ← decode_front (decode_message p) bytes
  fail_if (not (ciphertext_end == length bytes)) invalid_frame
  ciphertext_bytes ← slice ciphertext_start ciphertext_end bytes
  pq_ciphertext ← parse_ciphertext ciphertext_bytes
  ok (record { classical = classical; pq_ciphertext = pq_ciphertext })
