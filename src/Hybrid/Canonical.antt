-- ===== src/Hybrid/Canonical.antt =====
-- hybrid.rs: the two parsers on arbitrary bytes.
use mef.Prelude.{
  ℕ, ◌+◌, ◌≡◌, refl, sym, ap, ◌∙◌, not, List, [], ◌∷◌, ◌++◌, append-nil, arith, Bytes, IsByte, All,
  length, take, drop, take-length, ◌==◌, to_be, ◌%◌, ◌^◌, leb-true, usize_max, length-drop,
  length-take, take-append-drop,
}
use mef.Error.{
  ok, Ensures, Ensures-bind, Ensures-guard, Ensures-intro, invalid_frame, invalid_length,
  authentication_failed, ok_or,
}
use mef.Wire.{concat}
use mef.Wire.Laws.{slice-eq_width, copy_at-eq, concat-append, drop-add}
use mef.Crypto.Primitives.{Primitives}
use mef.Keys.Identity.{verify}
use mef.Pq.{parse_ciphertext, parse_key}
use mef.Pq.Kem.{MlKem, IsMlKem, ciphertext_len, encapsulation_key_len}
use mef.Handshake.Verified.{same_byte, verify-Ensures}
use mef.Handshake.Atomicity.{blake3_id-ne-panic}
use mef.Handshake.Message.{InitiatorHandshake, verify_identity, encode_message, decode_message}
use mef.Handshake.Bundle.{ResponderPrekeyBundle, encode_bundle, decode_bundle}
use mef.Handshake.Canonical.{decode_message-Ensures}
use mef.Handshake.Bundle.Canonical.{decode_bundle-Ensures}
use mef.Hybrid.Layout.{hybrid_magic, hybrid_version, front_segments}
use mef.Hybrid.Front.{Fronts, decode_front-Ensures}
use mef.Hybrid.Message.{HybridInitiatorHandshake, encode_hybrid_message, decode_hybrid_message}
use mef.Hybrid.Bundle.{
  HybridResponderPrekeyBundle, IsBound, encode_hybrid_bundle, decode_hybrid_bundle,
  binding_transcript, hybrid_transcript_label,
}

module _ {C : Type 0} (encode : C → Bytes) (P : C → Type 0) (bytes : Bytes) (read : C × ℕ × ℕ)
    (f : Fronts encode P bytes read) where
  -- The second part, and what follows, written behind the front again.
  encode-Fronts :
      (second : Bytes) (tail : List Bytes)
      → length second ≡ f.second_len
      → drop read.1 bytes ≡ second ++ concat tail
      → concat (front_segments (encode read.0) second ++ tail) ≡ bytes
  unfolding concat
  encode-Fronts second tail len behind =
      let first : length (encode read.0) % 2 ^ 16 ≡ length (encode read.0) =
        omega (arith, f.classical_fits) in
      let other : length second % 2 ^ 16 ≡ f.second_len = omega (arith, f.second_fits) in
      let head : List Bytes =
        hybrid_magic
        ∷ (hybrid_version ∷ [])
        ∷ to_be 2 (length (encode read.0))
        ∷ encode read.0
        ∷ to_be 2 f.second_len
        ∷ [] in
      rw (first, other)
        (concat-append head (second ∷ tail)
          ∙ ap (λ rest. concat head ++ rest) (sym behind)
          ∙ f.front)

-- What is behind a position, as a segment and the last bytes.
rest_split :
    (a n k : ℕ) (bytes : Bytes)
    → a + n + k ≡ length bytes
    → drop a bytes ≡ take n (drop a bytes) ++ (take k (drop (a + n) bytes) ++ [])
rest_split a n k bytes h =
    let left : length (drop (a + n) bytes) ≡ k = omega (arith, length-drop (a + n) bytes) in
    let last : take k (drop (a + n) bytes) ≡ drop (a + n) bytes =
      rw (← left) (take-length (drop (a + n) bytes)) in
    rw (last, append-nil, drop-add a n bytes) (sym (take-append-drop n (drop a bytes)))

parse_ciphertext-Ensures : (bytes : Bytes) → Ensures (λ sent. sent ≡ bytes) (parse_ciphertext bytes)
unfolding parse_ciphertext
parse_ciphertext-Ensures bytes =
    Ensures-guard (λ sent. sent ≡ bytes) (not (length bytes == ciphertext_len)) invalid_length _
      λ sized. refl

module _ {D E : Type 0} (p : Primitives) (q : MlKem D E) where
  -- The bundle's identity verifies, the signature over both keys does, and its encoding is the bytes.
  abbrev pub IsAcceptedBundle : Bytes → HybridResponderPrekeyBundle E → Type 0
  IsAcceptedBundle bytes b =
      (verify_identity p b.classical.identity ≡ ok tt)
      × IsBound p q b
      × (encode_hybrid_bundle p q b ≡ bytes)

module _ {D E : Type 0} (p : Primitives) (q : MlKem D E) (kem : IsMlKem q) where
  parse_key-Ensures :
      (bytes : Bytes) → Ensures (λ key. (q.to_bytes key ≡ bytes)) (parse_key q bytes)
  unfolding parse_key
  parse_key-Ensures bytes =
      Ensures-guard (λ key. q.to_bytes key ≡ bytes) (not (length bytes == encapsulation_key_len))
        invalid_length _
        λ sized.
          Ensures-intro (λ key. q.to_bytes key ≡ bytes) (ok_or (q.new bytes) authentication_failed)
            (ground arith) λ key made. kem.to_bytes-new bytes key (ground arith)

  binding_transcript-Ensures :
      (b : ResponderPrekeyBundle) (key : E)
      → Ensures (λ t. binding_transcript p q b key ≡ ok t) (binding_transcript p q b key)
  unfolding binding_transcript
  binding_transcript-Ensures b key =
      let parts = encode_bundle b ∷ q.to_bytes key ∷ [] in
      Ensures-intro _ _ (grind (arith, blake3_id-ne-panic p hybrid_transcript_label parts))
        λ t made. made

  -- On any bytes the parser of a hybrid bundle ends without reading out of bounds; if it accepts, the
  -- identity of the bundle verifies, the signature over both keys verifies, and the bytes are the
  -- encoding of the bundle. ML-KEM keeps its laws.
  pub decode_hybrid_bundle-Ensures :
      (bytes : Bytes)
      → All IsByte bytes
      → Ensures (IsAcceptedBundle p q bytes) (decode_hybrid_bundle p q bytes)
  unfolding decode_hybrid_bundle encode_hybrid_bundle concat
  decode_hybrid_bundle-Ensures bytes v =
      let P : ResponderPrekeyBundle → Type 0 = λ b. verify_identity p b.identity ≡ ok tt in
      Ensures-bind (Fronts encode_bundle P bytes) (IsAcceptedBundle p q bytes) _ _
        (decode_front-Ensures (decode_bundle p) encode_bundle P (decode_bundle-Ensures p) bytes v)
        λ read f.
          rw
            (leb-true (read.2 + 64) usize_max
              (omega (arith, f.end_read, f.start_read, f.second_fits, f.classical_fits)))
            (Ensures-guard (IsAcceptedBundle p q bytes) (not (read.2 + 64 == length bytes))
              invalid_frame _
              λ whole.
                let reached : read.1 + f.second_len + 64 ≡ length bytes =
                  ap (λ n. n + 64) (sym f.end_read)
                  ∙ same_byte (read.2 + 64) (length bytes) whole in
                let second = take f.second_len (drop read.1 bytes) in
                let second_len : length second ≡ f.second_len =
                  length-take f.second_len (drop read.1 bytes)
                    (omega (arith, length-drop read.1 bytes)) in
                let signature = take 64 (drop (read.1 + f.second_len) bytes) in
                rw
                  (
                    f.end_read,
                    slice-eq_width read.1 f.second_len bytes (omega arith),
                    copy_at-eq (read.1 + f.second_len) 64 bytes (omega arith),
                  )
                  (Ensures-bind (λ key. q.to_bytes key ≡ second) (IsAcceptedBundle p q bytes) _ _
                    (parse_key-Ensures second)
                    λ key same.
                      Ensures-bind (λ t. binding_transcript p q read.0 key ≡ ok t)
                        (IsAcceptedBundle p q bytes) _ _ (binding_transcript-Ensures read.0 key)
                        λ t hashed.
                          Ensures-bind (λ _. verify p read.0.identity.signing t signature ≡ ok tt)
                            (IsAcceptedBundle p q bytes) _ _
                            (verify-Ensures p read.0.identity.signing t signature)
                            λ _ verified. (
                              f.valid,
                              rw hashed verified,
                              encode-Fronts encode_bundle P bytes read f (q.to_bytes key)
                                  (signature ∷ []) (ap length same ∙ second_len)
                                  (rw same (rest_split read.1 f.second_len 64 bytes reached)),
                            )))

-- The message's identity verifies, and its encoding is the bytes.
abbrev pub IsAcceptedMessage : Primitives → Bytes → HybridInitiatorHandshake → Type 0
IsAcceptedMessage p bytes m =
    (verify_identity p m.classical.initiator_identity ≡ ok tt) × (encode_hybrid_message m ≡ bytes)

-- On any bytes the parser of a hybrid message ends without reading out of bounds; if it accepts, the
-- identity of the message verifies, and the bytes are the encoding of the message.
pub decode_hybrid_message-Ensures :
    (p : Primitives) (bytes : Bytes)
    → All IsByte bytes
    → Ensures (IsAcceptedMessage p bytes) (decode_hybrid_message p bytes)
unfolding decode_hybrid_message encode_hybrid_message concat
decode_hybrid_message-Ensures p bytes v =
    let P : InitiatorHandshake → Type 0 = λ m. verify_identity p m.initiator_identity ≡ ok tt in
    Ensures-bind (Fronts encode_message P bytes) (IsAcceptedMessage p bytes) _ _
      (decode_front-Ensures (decode_message p) encode_message P (decode_message-Ensures p) bytes v)
      λ read f.
        Ensures-guard (IsAcceptedMessage p bytes) (not (read.2 == length bytes)) invalid_frame _
          λ whole.
            let reached : read.1 + f.second_len ≡ length bytes =
              sym f.end_read ∙ same_byte read.2 (length bytes) whole in
            let left : length (drop read.1 bytes) ≡ f.second_len =
              omega (arith, length-drop read.1 bytes) in
            rw
              (
                f.end_read,
                slice-eq_width read.1 f.second_len bytes (omega arith),
                ← left,
                take-length (drop read.1 bytes),
              )
              (Ensures-bind (λ sent. sent ≡ drop read.1 bytes) (IsAcceptedMessage p bytes) _ _
                (parse_ciphertext-Ensures (drop read.1 bytes))
                λ sent same. rw same (
                  f.valid,
                  encode-Fronts encode_message P bytes read f (drop read.1 bytes) [] left
                      (sym (append-nil (drop read.1 bytes))),
                ))
