-- ===== src/Frame/Format.antt =====
-- frame/wire.rs: `InnerFrame`, its encoding and its parser. `open` is `open_frame` here.
use mef.Prelude.{
  ℕ, ◌+◌, not, ◌||◌, List, [], ◌∷◌, Bytes, length, ltb, ◌==◌, bytes_eq, to_be, from_be, codes,
  u8_max, u32_max, usize_max, checked_add, saturating_add, try_from,
}
use mef.Error.{Result, ok, ◌>>=◌, ◌>>◌, fail_if, ok_or, invalid_frame, invalid_length}
use mef.Wire.{index, slice, copy_at, concat}
use mef.Limits.{max_ciphertext_len}
use mef.Crypto.Suite
use mef.Crypto.Suite.{AeadSuite}
use mef.Crypto.Primitives.{Primitives}
use mef.Crypto.Aead.{Ciphertext, from_parts, open_ciphertext, body_len_fits}
use mef.Frame.Header.{FrameHeader, kind_id, kind_from_id}

abbrev pub magic : Bytes
magic = codes "MEF"

abbrev pub version : ℕ
version = 1

abbrev pub fixed_header_len : ℕ
fixed_header_len = 3 + 1 + 1 + 1 + 32 + 32 + 4 + 4 + 1 + 4

pub record InnerFrame : Type 0 where
  pub header : FrameHeader
  pub ciphertext : Ciphertext

-- What `encode_aad` appends, in its order.
abbrev pub aad_segments : AeadSuite → FrameHeader → ℕ → ℕ → List Bytes
aad_segments suite h nonce_len body_len =
    magic
    ∷ (version ∷ [])
    ∷ (Suite.id suite ∷ [])
    ∷ (kind_id h.kind ∷ [])
    ∷ h.session_id
    ∷ h.ratchet_public
    ∷ to_be 4 h.previous_chain_len
    ∷ to_be 4 h.message_number
    ∷ (nonce_len ∷ [])
    ∷ to_be 4 body_len
    ∷ []

unfoldable pub encode_aad : AeadSuite → FrameHeader → ℕ → Result Bytes
encode_aad suite header body_len = do
  len ← ok_or (try_from u32_max body_len) invalid_length
  nonce_len ← ok_or (try_from u8_max (Suite.nonce_len suite)) invalid_length
  let output = concat (aad_segments suite header nonce_len len)
  fail_if (not (length output == fixed_header_len)) invalid_frame
  ok output

unfoldable pub from_ciphertext : FrameHeader → Ciphertext → Result InnerFrame
from_ciphertext header c = do
  aad ← encode_aad c.suite header (length c.body)
  fail_if (not (length aad == fixed_header_len)) invalid_frame
  ok (record { header = header; ciphertext = c })

unfoldable pub frame_aad : InnerFrame → Result Bytes
frame_aad f = encode_aad f.ciphertext.suite f.header (length f.ciphertext.body)

unfoldable pub open_frame : Primitives → InnerFrame → Bytes → Result Bytes
unfolding frame_aad
open_frame p f key = do aad ← frame_aad f; open_ciphertext p key f.ciphertext aad

unfoldable pub encode : InnerFrame → Result Bytes
unfolding frame_aad
encode f = do
  aad ← frame_aad f
  with_nonce ← ok_or (checked_add usize_max (length aad) (length f.ciphertext.nonce)) invalid_length
  total ← ok_or (checked_add usize_max with_nonce (length f.ciphertext.body)) invalid_length
  ok (concat (aad ∷ f.ciphertext.nonce ∷ f.ciphertext.body ∷ []))

-- The frame at the front of `bytes`, and the length of its encoding.
unfoldable pub decode_prefix : Bytes → Result (InnerFrame × ℕ)
decode_prefix bytes = do
  fail_if
      (ltb (length bytes) fixed_header_len
        || ltb (saturating_add usize_max max_ciphertext_len (fixed_header_len + 24)) (length bytes))
      invalid_frame
  found_magic ← slice 0 3 bytes
  found_version ← index 3 bytes
  fail_if (not (bytes_eq found_magic magic) || not (found_version == version)) invalid_frame
  suite_id ← index 4 bytes
  suite ← Suite.from_id suite_id
  kind_byte ← index 5 bytes
  kind ← kind_from_id kind_byte
  session_id ← copy_at 6 32 bytes
  ratchet_public ← copy_at 38 32 bytes
  previous_chain_len ← copy_at 70 4 bytes
  message_number ← copy_at 74 4 bytes
  nonce_len ← index 78 bytes
  body_len_bytes ← copy_at 79 4 bytes
  body_len ← ok_or (try_from usize_max (from_be body_len_bytes)) invalid_length
  fail_if (not (nonce_len == Suite.nonce_len suite) || not (body_len_fits body_len)) invalid_frame
  with_nonce ← ok_or (checked_add usize_max fixed_header_len nonce_len) invalid_length
  expected_len ← ok_or (checked_add usize_max with_nonce body_len) invalid_length
  fail_if (ltb (length bytes) expected_len) invalid_frame
  let nonce_end = fixed_header_len + nonce_len
  nonce ← slice fixed_header_len nonce_end bytes
  body ← slice nonce_end expected_len bytes
  ciphertext ← from_parts suite nonce body
  frame ←
      from_ciphertext
        (record {
          kind = kind;
          session_id = session_id;
          ratchet_public = ratchet_public;
          previous_chain_len = from_be previous_chain_len;
          message_number = from_be message_number;
        })
        ciphertext
  ok (frame, expected_len)

unfoldable pub decode : Bytes → Result InnerFrame
decode bytes = do
  (frame, consumed) ← decode_prefix bytes
  fail_if (not (consumed == length bytes)) invalid_frame
  ok frame
