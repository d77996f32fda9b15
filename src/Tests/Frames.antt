-- ===== src/Tests/Frames.antt =====
-- A frame through its encoding.
use mef.Prelude.{
  ◌≡◌, refl, arith, [], ◌∷◌, ◌++◌, Bytes, to_be, from_be, bytes_eq, All, IsByte, length, replicate,
}
use mef.Error.{ok, Ensures}
use mef.Tests.Toy.{All-are_bytes}
use mef.Wire.{index, slice, copy_array, copy_at, concat}
use mef.Crypto.Suite.{nonce_len, from_id, id, aes256_gcm}
use mef.Crypto.Aead.{from_parts}
use mef.Frame.Header.{message, kind_id, kind_from_id}
use mef.Frame.Format.{
  InnerFrame, from_ciphertext, encode_aad, frame_aad, encode, decode, decode_prefix,
}
use mef.Frame.Valid.{IsFrame}
use mef.Frame.Reassemble.{Encodes}
use mef.Frame.RoundTrip.{decode_prefix-encode}
use mef.Frame.Canonical.{decode_prefix-Ensures}

abbrev pub sample : InnerFrame
sample = record {
  header = record {
    kind = message;
    session_id = replicate 32 7;
    ratchet_public = replicate 32 9;
    previous_chain_len = 258;
    message_number = 4000000000;
  };
  ciphertext = record { suite = aes256_gcm; nonce = replicate 12 5; body = replicate 20 200 };
}

pub sample-IsFrame : IsFrame sample
unfolding nonce_len
sample-IsFrame = record {
  header_valid = record {
    session_len = refl;
    ratchet_len = refl;
    previous_fits = omega arith;
    number_fits = omega arith;
  };
  ciphertext_valid = record { nonce_fits = refl; body_low = omega arith; body_high = omega arith };
}

decode_prefix-encode_example :
    (wire : Bytes) × (encode sample ≡ ok wire)
    × (decode_prefix (wire ++ (1 ∷ 2 ∷ [])) ≡ ok (sample, length wire))
unfolding nonce_len
decode_prefix-encode_example = decode_prefix-encode sample (1 ∷ 2 ∷ []) sample-IsFrame (omega arith)

-- The encoding of the sample, written out.
abbrev pub wire : Bytes
wire =
    77
    ∷ 69
    ∷ 70
    ∷ 1
    ∷ 1
    ∷ 2
    ∷ (replicate 32 7
        ++ replicate 32 9
        ++ (0 ∷ 0 ∷ 1 ∷ 2 ∷ 238 ∷ 107 ∷ 40 ∷ 0 ∷ 12 ∷ 0 ∷ 0 ∷ 0 ∷ 20 ∷ [])
        ++ replicate 12 5
        ++ replicate 20 200)

wire-encode : encode sample ≡ ok wire
unfolding encode encode_aad frame_aad to_be concat nonce_len id kind_id
wire-encode = refl

wire-decode : decode wire ≡ ok sample
unfolding decode decode_prefix index slice copy_at copy_array from_be to_be bytes_eq from_id id
    kind_id kind_from_id nonce_len from_parts from_ciphertext encode_aad concat
wire-decode = refl

wire-All : All IsByte wire
wire-All = All-are_bytes wire refl

decode_prefix-Ensures_example : Ensures (Encodes wire) (decode_prefix wire)
decode_prefix-Ensures_example = decode_prefix-Ensures wire wire-All
