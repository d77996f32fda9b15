-- ===== src/Tests/Deliveries.antt =====
-- Envelopes and the replay cache.
use mef.Prelude.{
  IsByte, All, ◌≡◌, ◌≢◌, refl, arith, [], ◌∷◌, ◌++◌, Bytes, bytes_eq, to_be, from_be, replicate,
}
use mef.Error.{Ensures, ok, err, replay_detected}
use mef.Envelope.Replay.{ReplayCache, new, retain, check_and_insert}
use mef.Envelope.Replay.Once.{IsCache, checks, checks-new, checks-refuses}
use mef.Vec.{any}
use mef.Wire.{index, slice, copy_array, copy_at, concat}
use mef.Crypto.Suite.{x_cha_cha20_poly1305, from_id, id, nonce_len}
use mef.Crypto.Aead.{from_parts, open_ciphertext}
use mef.Crypto.Kdf.{derive_secret, derive_aead_key, domain_label}
use mef.Keys.Dh.{diffie_hellman}
use mef.Frame.Header.{kind_id, kind_from_id}
use mef.Frame.Format as Frame
use mef.Frame.Format.{decode_prefix}
use mef.Envelope.Outer as Outer
use mef.Envelope.Outer.{OuterEnvelope, open_envelope, open_inner, envelope_aad}
use mef.Envelope.Deliver.{seal_envelope, open_inner_once}
use mef.Envelope.Valid.{IsEnvelope, envelope_segments}
use mef.Envelope.Canonical.{IsWritten, decode-IsWritten}
use mef.Envelope.RoundTrip.{decode-encode_envelope}
use mef.Envelope.Sealed.{open_inner-seal_envelope}
use mef.Envelope.Once.{open_inner_once-twice}
use mef.Tests.Toy.{All-are_bytes, toy, toy-IsAead, toy-IsKdf, toy-IsDh, unseal}
use mef.Tests.Frames.{sample, sample-IsFrame, wire}

abbrev empty : ReplayCache
empty = record { capacity = 2; entries = [] }

made : new 2 ≡ ok empty
unfolding new
made = refl

abbrev id_a : Bytes
id_a = replicate 16 1

abbrev id_b : Bytes
id_b = replicate 16 2

checks-new_example :
    IsCache (checks ((id_a, 50, 10) ∷ (id_b, 60, 11) ∷ (replicate 16 3, 70, 12) ∷ []) empty)
checks-new_example =
    checks-new 2 empty ((id_a, 50, 10) ∷ (id_b, 60, 11) ∷ (replicate 16 3, 70, 12) ∷ []) made

accepted :
    check_and_insert id_a 50 10 empty 0 ≡ (ok tt, record empty { entries = (id_a, 50) ∷ [] }, 0)
unfolding check_and_insert retain any
accepted = refl

checks-refuses_example :
    (check_and_insert id_a 90 50
      (checks ((id_b, 20, 15) ∷ (id_a, 70, 30) ∷ []) (record empty { entries = (id_a, 50) ∷ [] }))
      0).0
    ≡ err replay_detected
checks-refuses_example =
    checks-refuses id_a 50 10 empty (record empty { entries = (id_a, 50) ∷ [] })
      ((id_b, 20, 15) ∷ (id_a, 70, 30) ∷ []) 90 50 0 0 accepted (omega arith, (omega arith, tt))
      (omega arith)

-- The frame, two bytes of padding and the tag of the toy cipher.
abbrev envelope : OuterEnvelope
envelope = record {
  mailbox = replicate 32 8;
  message_id = id_a;
  expires_at_unix = 50;
  sender_ephemeral = replicate 32 1;
  ciphertext = record {
    suite = x_cha_cha20_poly1305;
    nonce = replicate 24 1;
    body = wire ++ ((0 ∷ 0 ∷ []) ++ replicate 16 224);
  };
}

delivered :
    open_inner_once toy envelope (replicate 32 6) 10 empty 0
    ≡ (ok sample, record empty { entries = (id_a, 50) ∷ [] }, 0)
unfolding open_inner_once open_inner open_envelope envelope_aad Outer.encode_aad diffie_hellman
    derive_secret derive_aead_key domain_label open_ciphertext unseal decode_prefix index slice
    copy_at copy_array from_be to_be bytes_eq from_id id kind_id kind_from_id nonce_len from_parts
    Frame.from_ciphertext Frame.encode_aad concat check_and_insert retain any
delivered = refl

open_inner_once-twice_example :
    (open_inner_once toy envelope
      (replicate 32 6)
      40
      (checks ((id_b, 70, 30) ∷ []) (record empty { entries = (id_a, 50) ∷ [] }))
      0).0
    ≢ ok sample
open_inner_once-twice_example =
    open_inner_once-twice toy envelope (replicate 32 6) 10 0 empty ((id_b, 70, 30) ∷ []) 40 0 sample
      delivered (omega arith, tt)

envelope-IsEnvelope : IsEnvelope envelope
unfolding nonce_len
envelope-IsEnvelope = record {
  mailbox_len = refl;
  id_len = refl;
  expires_fits = omega arith;
  sender_len = refl;
  suite_fixed = refl;
  ciphertext_valid = record { nonce_fits = refl; body_low = omega arith; body_high = omega arith };
}

abbrev written : Bytes
written = concat (envelope_segments envelope)

written-All : All IsByte written
unfolding concat to_be id
written-All = All-are_bytes written refl

decode-IsWritten_example : Ensures (IsWritten written) (Outer.decode written)
decode-IsWritten_example = decode-IsWritten written written-All

decode-encode_envelope_example :
    (bytes : Bytes) × (Outer.encode envelope ≡ ok bytes) × (Outer.decode bytes ≡ ok envelope)
decode-encode_envelope_example = decode-encode_envelope envelope envelope-IsEnvelope

open_inner-seal_envelope_example :
    (e : OuterEnvelope) × (seal_envelope toy (replicate 32 6) (replicate 32 8) 50 sample 2 tt 0
      ≡ (ok e, tt, 3))
    × (open_inner toy e (replicate 32 6) 50 ≡ ok sample)
unfolding nonce_len bytes_eq
open_inner-seal_envelope_example =
    open_inner-seal_envelope toy toy-IsAead toy-IsKdf toy-IsDh (replicate 32 6) (replicate 32 8) 50
      50 sample 2 0 (replicate 32 1, refl, refl) (replicate 16 2, refl, refl)
      (replicate 24 3, refl, refl) refl refl (omega arith) (omega arith) sample-IsFrame
      (omega arith)
