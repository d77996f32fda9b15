-- ===== src/Envelope/RoundTrip.antt =====
-- envelope/outer.rs: `encode` followed by `decode`.
use mef.Prelude.{
  ℕ, ◌+◌, ◌≡◌, refl, ◌∙◌, List, [], arith, Bytes, length, take, leb-true, ltb-false, ==_refl,
  bytes_eq_refl, to_be, from_be-to_be, length-to_be, usize_max,
}
use mef.Error.{ok}
use mef.Limits.{max_ciphertext_len}
use mef.Wire.{index, slice, copy_at, concat}
use mef.Wire.Laws.{copy_at-segment, index-segment, slice-segment, length-concat}
use mef.Crypto.Suite
use mef.Crypto.Aead.{from_parts}
use mef.Frame.Valid.{from_parts-eq}
use mef.Envelope.Outer.{OuterEnvelope, outer_magic, outer_version, outer_suite, encode, decode}
use mef.Envelope.Valid.{
  IsEnvelope, envelope_segments, envelope_nonce, encode-eq_envelope, from_ciphertext-eq_envelope,
}

module _ (e : OuterEnvelope) (v : IsEnvelope e) where
  unfoldable sent : Bytes
  sent = concat (envelope_segments e)

  abbrev body_size : ℕ
  body_size = length e.ciphertext.body

  abbrev before : ℕ → List Bytes
  before k = take k (envelope_segments e)

  abbrev nonce_width : length e.ciphertext.nonce ≡ 24
  nonce_width = envelope_nonce e v

  read_magic : slice 0 3 sent ≡ ok outer_magic
  unfolding sent
  read_magic = slice-segment [] outer_magic _ 0 3 refl refl

  read_version : index 3 sent ≡ ok outer_version
  unfolding sent
  read_version = index-segment (before 1) outer_version _ 3 refl

  read_suite : index 4 sent ≡ ok (Suite.id outer_suite)
  unfolding sent
  read_suite = index-segment (before 2) _ _ 4 refl

  read_mailbox : copy_at 5 32 sent ≡ ok e.mailbox
  unfolding sent
  read_mailbox = copy_at-segment (before 3) _ _ 5 32 refl v.mailbox_len

  read_id : copy_at 37 16 sent ≡ ok e.message_id
  unfolding sent
  read_id = copy_at-segment (before 4) _ _ 37 16 (omega (arith, v.mailbox_len)) v.id_len

  read_expires : copy_at 53 8 sent ≡ ok (to_be 8 e.expires_at_unix)
  unfolding sent
  read_expires =
      copy_at-segment (before 5) _ _ 53 8 (omega (arith, v.mailbox_len, v.id_len))
        (length-to_be 8 e.expires_at_unix)

  read_sender : copy_at 61 32 sent ≡ ok e.sender_ephemeral
  unfolding sent
  read_sender =
      copy_at-segment (before 6) _ _ 61 32
        (omega (arith, v.mailbox_len, v.id_len, length-to_be 8 e.expires_at_unix)) v.sender_len

  read_nonce_len : index 93 sent ≡ ok 24
  unfolding sent
  read_nonce_len =
      index-segment (before 7) 24 _ 93
        (omega (arith, v.mailbox_len, v.id_len, length-to_be 8 e.expires_at_unix, v.sender_len))

  read_body_len : copy_at 94 4 sent ≡ ok (to_be 4 body_size)
  unfolding sent
  read_body_len =
      copy_at-segment (before 8) _ _ 94 4
        (omega (arith, v.mailbox_len, v.id_len, length-to_be 8 e.expires_at_unix, v.sender_len))
        (length-to_be 4 body_size)

  read_nonce : slice 98 122 sent ≡ ok e.ciphertext.nonce
  unfolding sent
  read_nonce =
      slice-segment (before 9) _ _ 98 122
        (omega (
          arith,
          v.mailbox_len,
          v.id_len,
          length-to_be 8 e.expires_at_unix,
          v.sender_len,
          length-to_be 4 body_size,
        ))
        (omega (arith, nonce_width))

  read_body : slice 122 (122 + body_size) sent ≡ ok e.ciphertext.body
  unfolding sent
  read_body =
      slice-segment (before 10) _ _ 122 _
        (omega (
          arith,
          nonce_width,
          v.mailbox_len,
          v.id_len,
          length-to_be 8 e.expires_at_unix,
          v.sender_len,
          length-to_be 4 body_size,
        ))
        refl

  length-sent : length sent ≡ 122 + body_size
  unfolding sent
  length-sent =
      length-concat (envelope_segments e)
      ∙ omega (
        arith,
        nonce_width,
        v.mailbox_len,
        v.id_len,
        length-to_be 8 e.expires_at_unix,
        v.sender_len,
        length-to_be 4 body_size,
      )

  rebuilt : from_parts outer_suite e.ciphertext.nonce e.ciphertext.body ≡ ok e.ciphertext
  rebuilt = rw (← v.suite_fixed) (from_parts-eq e.ciphertext v.ciphertext_valid)

  decode-sent : decode sent ≡ ok e
  unfolding decode Suite.nonce_len
  decode-sent =
      let small = v.ciphertext_valid.body_high in
      let low = v.ciphertext_valid.body_low in
      rw
        (
          length-sent,
          ltb-false (122 + body_size) 98 (omega arith),
          ltb-false (max_ciphertext_len + (98 + 24)) (122 + body_size) (omega arith),
          read_magic,
          read_version,
          read_suite,
          read_mailbox,
          read_id,
          read_expires,
          read_sender,
          read_nonce_len,
          read_body_len,
          bytes_eq_refl outer_magic,
          Suite.from_id-id,
          Suite.same_refl outer_suite,
          from_be-to_be 4 body_size (omega arith),
          from_be-to_be 8 e.expires_at_unix (omega arith),
          leb-true body_size usize_max (omega arith),
          leb-true 16 body_size low,
          leb-true body_size max_ciphertext_len small,
          leb-true (122 + body_size) usize_max (omega arith),
          ==_refl (122 + body_size),
          read_nonce,
          read_body,
          rebuilt,
          from_ciphertext-eq_envelope e v,
        )
        refl

  -- A valid envelope has an encoding, and parsing the encoding gives back the envelope.
  pub decode-encode_envelope : (wire : Bytes) × (encode e ≡ ok wire) × (decode wire ≡ ok e)
  unfolding sent
  decode-encode_envelope = (sent, encode-eq_envelope e v, decode-sent)
