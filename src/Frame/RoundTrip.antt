-- ===== src/Frame/RoundTrip.antt =====
-- frame/wire.rs: `encode` followed by `decode_prefix` and `decode`.
use mef.Prelude.{
  ℕ, ◌+◌, ◌≤◌, ◌≡◌, refl, ◌∙◌, List, [], ◌++◌, arith, Bytes, length, take, to_be, from_be-to_be,
  length-to_be, bytes_eq_refl, ==_refl, append-nil,
}
use mef.Error.{ok}
use mef.Wire.{index, slice, copy_at, concat, total}
use mef.Wire.Laws.{index-segment, copy_at-segment, slice-segment, length-concat}
use mef.Crypto.Suite
use mef.Limits.{max_ciphertext_len}
use mef.Frame.Header.{kind_id, kind_from_id-kind_id}
use mef.Frame.Format.{InnerFrame, fixed_header_len, magic, version, encode, decode_prefix, decode}
use mef.Frame.Valid.{
  IsFrame, encoded_len, frame_segments, encode-eq, nonce_len-le, from_parts-eq, from_ciphertext-eq,
}

module _ (f : InnerFrame) (v : IsFrame f) (rest : Bytes) where
  wire : Bytes
  wire = concat (frame_segments f rest)

  length-wire : length wire ≡ encoded_len f + length rest
  unfolding wire
  length-wire =
      length-concat (frame_segments f rest)
      ∙ omega (
        arith,
        length-to_be 4 f.header.previous_chain_len,
        length-to_be 4 f.header.message_number,
        length-to_be 4 (length f.ciphertext.body),
      )

  abbrev before : ℕ → List Bytes
  before k = take k (frame_segments f rest)

  read_magic : slice 0 3 wire ≡ ok magic
  unfolding wire
  read_magic = slice-segment [] magic _ 0 3 refl refl

  read_version : index 3 wire ≡ ok version
  unfolding wire
  read_version = index-segment (before 1) version _ 3 refl

  read_suite : index 4 wire ≡ ok (Suite.id f.ciphertext.suite)
  unfolding wire
  read_suite = index-segment (before 2) _ _ 4 refl

  read_kind : index 5 wire ≡ ok (kind_id f.header.kind)
  unfolding wire
  read_kind = index-segment (before 3) _ _ 5 refl

  read_session : copy_at 6 32 wire ≡ ok f.header.session_id
  unfolding wire
  read_session = copy_at-segment (before 4) _ _ 6 32 refl (omega arith)

  read_ratchet : copy_at 38 32 wire ≡ ok f.header.ratchet_public
  unfolding wire
  read_ratchet = copy_at-segment (before 5) _ _ 38 32 (omega arith) (omega arith)

  read_previous : copy_at 70 4 wire ≡ ok (to_be 4 f.header.previous_chain_len)
  unfolding wire
  read_previous =
      copy_at-segment (before 6) _ _ 70 4 (omega arith) (length-to_be 4 f.header.previous_chain_len)

  read_number : copy_at 74 4 wire ≡ ok (to_be 4 f.header.message_number)
  unfolding wire
  read_number =
      copy_at-segment (before 7) _ _ 74 4
        (omega (arith, length-to_be 4 f.header.previous_chain_len))
        (length-to_be 4 f.header.message_number)

  read_nonce_len : index 78 wire ≡ ok (Suite.nonce_len f.ciphertext.suite)
  unfolding wire
  read_nonce_len = index-segment (before 8) _ _ 78 (
      omega
        (arith, length-to_be 4 f.header.previous_chain_len, length-to_be 4 f.header.message_number))

  read_body_len : copy_at 79 4 wire ≡ ok (to_be 4 (length f.ciphertext.body))
  unfolding wire
  read_body_len =
      copy_at-segment (before 9) _ _ 79 4
        (omega (
          arith,
          length-to_be 4 f.header.previous_chain_len,
          length-to_be 4 f.header.message_number,
        ))
        (length-to_be 4 (length f.ciphertext.body))

  header_before : total (before 10) ≡ 83
  header_before = omega (
    arith,
    length-to_be 4 f.header.previous_chain_len,
    length-to_be 4 f.header.message_number,
    length-to_be 4 (length f.ciphertext.body),
  )

  read_nonce : slice 83 (83 + Suite.nonce_len f.ciphertext.suite) wire ≡ ok f.ciphertext.nonce
  unfolding wire
  read_nonce = slice-segment (before 10) _ _ 83 _ header_before (omega arith)

  read_body :
      slice (83 + Suite.nonce_len f.ciphertext.suite) (encoded_len f) wire ≡ ok f.ciphertext.body
  unfolding wire
  read_body =
      slice-segment (before 11) _ _ (83 + Suite.nonce_len f.ciphertext.suite) (encoded_len f)
        (omega (
          arith,
          length-to_be 4 f.header.previous_chain_len,
          length-to_be 4 f.header.message_number,
          length-to_be 4 (length f.ciphertext.body),
        ))
        refl

  decode_prefix-wire :
      encoded_len f + length rest ≤ max_ciphertext_len + (fixed_header_len + 24)
      → decode_prefix wire ≡ ok (f, encoded_len f)
  unfolding decode_prefix
  decode_prefix-wire short =
      rw
        (
          read_magic,
          read_version,
          read_suite,
          Suite.from_id-id,
          read_kind,
          kind_from_id-kind_id,
          read_session,
          read_ratchet,
          read_previous,
          read_number,
          read_nonce_len,
          read_body_len,
          length-wire,
          bytes_eq_refl,
          from_be-to_be 4 f.header.previous_chain_len (omega arith),
          from_be-to_be 4 f.header.message_number (omega arith),
          from_be-to_be 4 (length f.ciphertext.body) (omega arith),
        )
        (ground (
          arith,
          read_nonce,
          read_body,
          from_parts-eq f.ciphertext,
          from_ciphertext-eq f.header f.ciphertext,
          nonce_len-le f.ciphertext.suite,
        ))

-- A valid frame has an encoding, and the parser finds it at the front of any bytes that start with
-- it, within the parser's window: it returns the frame and the length of its encoding.
pub decode_prefix-encode :
    (f : InnerFrame) (rest : Bytes)
    → IsFrame f
    → encoded_len f + length rest ≤ max_ciphertext_len + (fixed_header_len + 24)
    → (wire : Bytes) × (encode f ≡ ok wire) × (decode_prefix (wire ++ rest) ≡ ok (f, length wire))
unfolding wire concat
decode_prefix-encode f rest v short =
    let (wire, written, size, laid_out) = encode-eq f v in
    (wire, written, rw (laid_out rest, size) (decode_prefix-wire f v rest short))

decode-of_prefix :
    (bytes : Bytes) (f : InnerFrame)
    → decode_prefix bytes ≡ ok (f, length bytes)
    → decode bytes ≡ ok f
unfolding decode
decode-of_prefix bytes f found = rw (found, ==_refl (length bytes))

-- A valid frame has an encoding, and parsing the encoding gives back the frame.
pub decode-encode :
    (f : InnerFrame) → IsFrame f → (wire : Bytes) × (encode f ≡ ok wire) × (decode wire ≡ ok f)
decode-encode f v =
    let (wire, written, found) =
      decode_prefix-encode f [] v (omega (arith, nonce_len-le f.ciphertext.suite)) in
    (wire, written, decode-of_prefix wire f (rw append-nil at found))
