-- ===== src/Hybrid/Bundle.antt =====
-- hybrid.rs: `HybridResponderPrekeyBundle` with its encoding, its parser and its verification.
use mef.Prelude.{ℕ, ◌≡◌, not, ◌++◌, [], ◌∷◌, Bytes, length, ◌==◌, codes, usize_max, checked_add}
use mef.Error.{Result, ok, ◌>>=◌, ◌>>◌, fail_if, ok_or, invalid_frame, invalid_length}
use mef.Wire.{slice, copy_at, concat}
use mef.Crypto.Primitives.{Primitives}
use mef.Crypto.Kdf.{blake3_id}
use mef.Pq.{MlKem768PublicKey, parse_key}
use mef.Pq.Kem.{MlKem}
use mef.Keys.Identity.{verify}
use mef.Handshake.Bundle.{ResponderPrekeyBundle, encode_bundle, decode_bundle, verify_bundle}
use mef.Hybrid.Layout.{front_segments, decode_front}

abbrev pub hybrid_transcript_label : Bytes
hybrid_transcript_label = codes "handshake-mlkem768-bundle-v1"

pub record HybridResponderPrekeyBundle (E : Type 0) : Type 0 where
  pub classical : ResponderPrekeyBundle
  pub pq_public : MlKem768PublicKey E
  pub pq_signature : Bytes

module _ {D E : Type 0} (p : Primitives) (q : MlKem D E) where
  unfoldable pub binding_transcript : ResponderPrekeyBundle → MlKem768PublicKey E → Result Bytes
  binding_transcript classical pq_public = do
    digest ←
        blake3_id p hybrid_transcript_label (encode_bundle classical ∷ q.to_bytes pq_public ∷ [])
    ok digest

  -- `HybridResponderPrekeyBundle::encode`.
  unfoldable pub encode_hybrid_bundle : HybridResponderPrekeyBundle E → Bytes
  encode_hybrid_bundle b =
      concat
        (front_segments (encode_bundle b.classical) (q.to_bytes b.pq_public) ++ b.pq_signature ∷ [])

  -- `HybridResponderPrekeyBundle::decode`.
  unfoldable pub decode_hybrid_bundle : Bytes → Result (HybridResponderPrekeyBundle E)
  decode_hybrid_bundle bytes = do
    (classical, pq_start, pq_end) ← decode_front (decode_bundle p) bytes
    signature_end ← ok_or (checked_add usize_max pq_end 64) invalid_length
    fail_if (not (signature_end == length bytes)) invalid_frame
    pq_bytes ← slice pq_start pq_end bytes
    pq_public ← parse_key q pq_bytes
    pq_signature ← copy_at pq_end 64 bytes
    transcript ← binding_transcript classical pq_public
    verify p classical.identity.signing transcript pq_signature
    ok (record { classical = classical; pq_public = pq_public; pq_signature = pq_signature })

  -- `HybridResponderPrekeyBundle::verify`.
  unfoldable pub verify_hybrid_bundle : HybridResponderPrekeyBundle E → ℕ → Result (Unit {0})
  verify_hybrid_bundle b now = do
    verify_bundle p b.classical now
    transcript ← binding_transcript b.classical b.pq_public
    verify p b.classical.identity.signing transcript b.pq_signature

  -- The signature over both keys verifies.
  abbrev pub IsBound : HybridResponderPrekeyBundle E → Type 0
  IsBound b =
      binding_transcript b.classical b.pq_public
        >>= (λ transcript. verify p b.classical.identity.signing transcript b.pq_signature)
      ≡ ok tt
