-- ===== src/Hybrid/RoundTrip.antt =====
-- hybrid.rs: `encode` followed by `decode`, of messages and of bundles, and the bundle that a
-- responder hands out.
use mef.Prelude.{
  ℕ, ◌+◌, ◌<◌, ◌^◌, ◌==◌, true, ◌≡◌, refl, ◌∙◌, List, [], ◌∷◌, arith, Bytes, length, leb-true,
  usize_max,
}
use mef.Error.{ok, >>=-ok_inv}
use mef.Wire.{copy_at}
use mef.Wire.Laws.{copy_at-segment}
use mef.Crypto.Primitives.{Primitives}
use mef.Pq.{parse_ciphertext, parse_key}
use mef.Pq.Kem.{MlKem, IsMlKem, ciphertext_len}
use mef.Handshake.Message.{verify_identity, encode_message, decode_message}
use mef.Handshake.RoundTrip.{IsHandshake, decode_message-encode_message}
use mef.Handshake.Bundle.{encode_bundle, decode_bundle}
use mef.Handshake.Bundle.RoundTrip.{IsBundle, decode_bundle-encode_bundle}
use mef.Hybrid.Layout.{front_segments}
use mef.Hybrid.Segments.{sent, length-sent, second_end, front_read, read_second, decode_front-sent}
use mef.Hybrid.Message.{HybridInitiatorHandshake, encode_hybrid_message, decode_hybrid_message}
use mef.Hybrid.Bundle.{
  HybridResponderPrekeyBundle, IsBound, encode_hybrid_bundle, decode_hybrid_bundle,
  binding_transcript,
}

parse_ciphertext-eq :
    (bytes : Bytes) → length bytes ≡ ciphertext_len → parse_ciphertext bytes ≡ ok bytes
unfolding parse_ciphertext
parse_ciphertext-eq bytes h = rw h refl

eq_true : (a b : ℕ) → a ≡ b → (a == b) ≡ true
eq_true a b h = ground arith

-- A hybrid message whose identity verifies has an encoding of 1301 bytes, and parsing the encoding
-- gives back the message. Its fields have their widths.
pub decode_hybrid_message-encode_hybrid_message :
    (p : Primitives) (m : HybridInitiatorHandshake)
    → IsHandshake m.classical
    → length m.pq_ciphertext ≡ ciphertext_len
    → verify_identity p m.classical.initiator_identity ≡ ok tt
    → (length (encode_hybrid_message m) ≡ 1301)
      × (decode_hybrid_message p (encode_hybrid_message m) ≡ ok m)
unfolding encode_hybrid_message decode_hybrid_message sent
decode_hybrid_message-encode_hybrid_message p m v sized verified =
    let c = encode_message m.classical in
    let (len, back) = decode_message-encode_message p m.classical v verified in
    let fits : length c < 2 ^ 16 = omega (arith, len) in
    let second_fits : length m.pq_ciphertext < 2 ^ 16 = omega (arith, sized) in
    let whole = length-sent c m.pq_ciphertext [] fits second_fits in
    let reached =
      eq_true (second_end c m.pq_ciphertext [] fits second_fits)
        (length (sent c m.pq_ciphertext [] fits second_fits)) (omega (arith, whole)) in
    (
      whole ∙ omega (arith, len, sized),
      rw
          (
            decode_front-sent c m.pq_ciphertext [] fits second_fits (decode_message p) m.classical
                back,
            reached,
            read_second c m.pq_ciphertext [] fits second_fits,
            parse_ciphertext-eq m.pq_ciphertext sized,
          )
          refl,
    )

module _ {D E : Type 0} (p : Primitives) (q : MlKem D E) (kem : IsMlKem q) where
  parse_key-to_bytes : (key : E) → parse_key q (q.to_bytes key) ≡ ok key
  unfolding parse_key
  parse_key-to_bytes key = rw (kem.length-to_bytes key, kem.new-to_bytes key) refl

  -- A hybrid bundle whose two parts verify has an encoding of 1533 bytes, and parsing the encoding
  -- gives back the bundle.
  pub decode_hybrid_bundle-encode_hybrid_bundle :
      (b : HybridResponderPrekeyBundle E)
      → IsBundle b.classical
      → length b.pq_signature ≡ 64
      → verify_identity p b.classical.identity ≡ ok tt
      → IsBound p q b
      → (length (encode_hybrid_bundle p q b) ≡ 1533)
        × (decode_hybrid_bundle p q (encode_hybrid_bundle p q b) ≡ ok b)
  unfolding encode_hybrid_bundle decode_hybrid_bundle sent
  decode_hybrid_bundle-encode_hybrid_bundle b v sized verified bound =
      let c = encode_bundle b.classical in
      let key = q.to_bytes b.pq_public in
      let tail : List Bytes = b.pq_signature ∷ [] in
      let (len, back) = decode_bundle-encode_bundle p b.classical v verified in
      let fits : length c < 2 ^ 16 = omega (arith, len) in
      let second_fits : length key < 2 ^ 16 = omega (arith, kem.length-to_bytes b.pq_public) in
      let whole = length-sent c key tail fits second_fits in
      let (transcript, signed, hashed) =
        >>=-ok_inv (binding_transcript p q b.classical b.pq_public) _ bound in
      let end = second_end c key tail fits second_fits in
      let reached =
        eq_true (end + 64) (length (sent c key tail fits second_fits))
          (omega (arith, whole, sized)) in
      let start_read = front_read c key tail fits second_fits in
      let last : copy_at end 64 (sent c key tail fits second_fits) ≡ ok b.pq_signature =
        copy_at-segment (front_segments c key) b.pq_signature [] end 64 (omega (arith, start_read))
          sized in
      (
        whole ∙ omega (arith, len, kem.length-to_bytes b.pq_public, sized),
        rw
            (
              decode_front-sent c key tail fits second_fits (decode_bundle p) b.classical back,
              leb-true (end + 64) usize_max (omega arith),
              reached,
              read_second c key tail fits second_fits,
              parse_key-to_bytes b.pq_public,
              last,
              hashed,
              signed,
            )
            refl,
      )
