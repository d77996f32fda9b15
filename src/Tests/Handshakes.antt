-- ===== src/Tests/Handshakes.antt =====
-- A handshake message of an identity, with a one-time prekey.
use mef.Prelude.{◌≡◌, refl, arith, Bytes, All, IsByte, to_be, length, replicate, some}
use mef.Error.{ok, Ensures}
use mef.Wire.{concat}
use mef.Keys.Identity.{from_seed, sign}
use mef.Handshake.Message.{
  InitiatorHandshake, identity_binding_transcript, one_time_segments, identity_public,
  encode_message, decode_message,
}
use mef.Handshake.RoundTrip.{IsHandshake, decode_message-encode_message}
use mef.Handshake.Verified.{identity-verifies}
use mef.Handshake.Canonical.{IsAccepted, decode_message-Ensures}
use mef.Tests.Toy.{toy, All-are_bytes, toy-IsSigning}

abbrev seed : Bytes
seed = replicate 32 1

abbrev first_message : InitiatorHandshake
unfolding identity_public from_seed
first_message = record {
  initiator_identity = identity_public toy (from_seed toy seed) (replicate 32 2);
  initiator_ephemeral = replicate 32 3;
  initiator_ratchet = replicate 32 4;
  signed_prekey_id = 7;
  one_time_prekey_id = some 9;
}

first_message-IsHandshake : IsHandshake first_message
unfolding identity_public from_seed sign
first_message-IsHandshake = record {
  signing_len = toy-IsSigning.length-verifying_key seed;
  dh_len = refl;
  signature_len = toy-IsSigning.length-sign seed _;
  ephemeral_len = refl;
  ratchet_len = refl;
  prekey_fits = omega arith;
  one_time_fits = omega arith;
}

decode_message-encode_message_example :
    (length (encode_message first_message) ≡ 205)
    × (decode_message toy (encode_message first_message) ≡ ok first_message)
unfolding first_message identity_public
decode_message-encode_message_example =
    decode_message-encode_message toy first_message first_message-IsHandshake
      (identity-verifies toy toy-IsSigning seed (replicate 32 2))

abbrev first_wire : Bytes
first_wire = encode_message first_message

first_wire-All : All IsByte first_wire
unfolding first_message identity_public from_seed sign encode_message concat
    identity_binding_transcript to_be one_time_segments
first_wire-All = All-are_bytes first_wire refl

decode_message-Ensures_example : Ensures (IsAccepted toy first_wire) (decode_message toy first_wire)
decode_message-Ensures_example = decode_message-Ensures toy first_wire first_wire-All
