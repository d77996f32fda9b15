-- ===== src/Tests/Prekeys/Hybrid/Wire.antt =====
-- The hybrid bundle and message of the parent's responder and initiator, encoded and parsed.
use mef.Prelude.{◌≡◌, refl, arith, Bytes, length, All, IsByte, to_be, replicate}
use mef.Error.{ok, Ensures}
use mef.Wire.{concat}
use mef.Keys.Identity.{from_seed, sign}
use mef.Keys.Prekey.{issue, sign_prekey, transcript}
use mef.Handshake.Message.{
  identity_public, identity_binding_transcript, encode_message, one_time_segments,
}
use mef.Handshake.RoundTrip.{IsHandshake}
use mef.Handshake.Verified.{identity-verifies}
use mef.Handshake.Bundle.{encode_bundle, offer_segments}
use mef.Handshake.Material.{bundle, local_public}
use mef.Hybrid.Message.{encode_hybrid_message, decode_hybrid_message}
use mef.Hybrid.Bundle.{encode_hybrid_bundle, decode_hybrid_bundle}
use mef.Hybrid.RoundTrip.{decode_hybrid_message-encode_hybrid_message}
use mef.Hybrid.Canonical.{
  IsAcceptedMessage, IsAcceptedBundle, decode_hybrid_message-Ensures, decode_hybrid_bundle-Ensures,
}
use mef.Hybrid.Directory.{IsDelivered, hybrid_bundle-IsDelivered}
use mef.Tests.Toy.{toy, toy-IsSigning, All-are_bytes}
use mef.Tests.Kem.{toy_kem, toy_kem-IsMlKem, key_bytes}
use mef.Tests.Prekeys.{bob_keys, local_of, first_message}
use mef.Tests.Prekeys.Bundles.{bob_bundle-IsBundle}
use mef.Tests.Prekeys.Hybrid.{hybrid_bob, hybrid_bob-IsHybrid, bob_bundle, hybrid_message}

hybrid_bundle-IsDelivered_example : IsDelivered toy toy_kem hybrid_bob 1000
hybrid_bundle-IsDelivered_example =
    hybrid_bundle-IsDelivered toy toy_kem hybrid_bob 1000 toy_kem-IsMlKem toy-IsSigning
      hybrid_bob-IsHybrid bob_bundle-IsBundle

first_message-IsHandshake : IsHandshake first_message
unfolding first_message local_public identity_public from_seed sign local_of
first_message-IsHandshake = record {
  signing_len = refl;
  dh_len = refl;
  signature_len =
      toy-IsSigning.length-sign (replicate 32 9) (identity_binding_transcript (replicate 32 9));
  ephemeral_len = refl;
  ratchet_len = refl;
  prekey_fits = omega arith;
  one_time_fits = omega arith;
}

decode_hybrid_message-encode_hybrid_message_example :
    (length (encode_hybrid_message hybrid_message) ≡ 1301)
    × (decode_hybrid_message toy (encode_hybrid_message hybrid_message) ≡ ok hybrid_message)
unfolding first_message local_public local_of
decode_hybrid_message-encode_hybrid_message_example =
    decode_hybrid_message-encode_hybrid_message toy hybrid_message first_message-IsHandshake refl
      (identity-verifies toy toy-IsSigning (replicate 32 9) (replicate 32 9))

abbrev message_wire : Bytes
message_wire = encode_hybrid_message hybrid_message

message_wire-All : All IsByte message_wire
unfolding first_message local_public identity_public from_seed sign local_of encode_hybrid_message
    concat identity_binding_transcript to_be encode_message one_time_segments
message_wire-All = All-are_bytes message_wire refl

decode_hybrid_message-Ensures_example :
    Ensures (IsAcceptedMessage toy message_wire) (decode_hybrid_message toy message_wire)
decode_hybrid_message-Ensures_example =
    decode_hybrid_message-Ensures toy message_wire message_wire-All

abbrev bundle_wire : Bytes
bundle_wire = encode_hybrid_bundle toy toy_kem bob_bundle

bundle_wire-All : All IsByte bundle_wire
unfolding bob_bundle bundle bob_keys encode_bundle encode_hybrid_bundle concat offer_segments
    from_seed sign issue sign_prekey transcript local_public identity_public
    identity_binding_transcript to_be key_bytes
bundle_wire-All = All-are_bytes bundle_wire refl

decode_hybrid_bundle-Ensures_example :
    Ensures
      (IsAcceptedBundle toy toy_kem bundle_wire)
      (decode_hybrid_bundle toy toy_kem bundle_wire)
decode_hybrid_bundle-Ensures_example =
    decode_hybrid_bundle-Ensures toy toy_kem toy_kem-IsMlKem bundle_wire bundle_wire-All
