-- ===== src/Tests/Prekeys/Bundles.antt =====
-- The bundle of a responder with a one-time prekey, encoded and parsed.
use mef.Prelude.{◌≡◌, refl, arith, Bytes, length, All, IsByte, to_be, replicate}
use mef.Error.{ok, Ensures}
use mef.Wire.{concat}
use mef.Keys.Identity.{from_seed, sign}
use mef.Keys.Prekey.{issue, sign_prekey, transcript}
use mef.Handshake.Message.{identity_public, identity_binding_transcript}
use mef.Handshake.Bundle.{ResponderPrekeyBundle, encode_bundle, decode_bundle, offer_segments}
use mef.Handshake.Bundle.RoundTrip.{IsBundle, decode_bundle-encode_bundle}
use mef.Handshake.Bundle.Canonical.{IsAccepted, decode_bundle-Ensures}
use mef.Handshake.Verified.{identity-verifies}
use mef.Handshake.Material.{bundle, local_public}
use mef.Tests.Toy.{toy, toy-IsSigning, All-are_bytes}
use mef.Tests.Prekeys.{bob_keys, local_of}

abbrev bob_bundle : ResponderPrekeyBundle
bob_bundle = bundle toy bob_keys

pub bob_bundle-IsBundle : IsBundle bob_bundle
unfolding bundle bob_keys local_of local_public identity_public from_seed sign issue sign_prekey
bob_bundle-IsBundle = record {
  signing_len = refl;
  dh_len = refl;
  signature_len =
      toy-IsSigning.length-sign (replicate 32 5) (identity_binding_transcript (replicate 32 5));
  id_fits = omega arith;
  prekey_len = refl;
  expiry_fits = omega arith;
  prekey_signature_len =
      toy-IsSigning.length-sign (replicate 32 5) (transcript 7 (replicate 32 6) 2000);
  offered = (omega arith, refl);
}

decode_bundle-encode_bundle_example :
    (length (encode_bundle bob_bundle) ≡ 277)
    × (decode_bundle toy (encode_bundle bob_bundle) ≡ ok bob_bundle)
unfolding bundle bob_keys local_of local_public
decode_bundle-encode_bundle_example =
    decode_bundle-encode_bundle toy bob_bundle bob_bundle-IsBundle
      (identity-verifies toy toy-IsSigning (replicate 32 5) (replicate 32 5))

abbrev wire : Bytes
wire = encode_bundle bob_bundle

wire-All : All IsByte wire
unfolding bundle bob_keys local_of local_public identity_public from_seed sign issue sign_prekey
    encode_bundle concat identity_binding_transcript transcript to_be offer_segments
wire-All = All-are_bytes wire refl

decode_bundle-Ensures_example : Ensures (IsAccepted toy wire) (decode_bundle toy wire)
decode_bundle-Ensures_example = decode_bundle-Ensures toy wire wire-All
