-- ===== src/Tests/Prekeys/Hybrid.antt =====
-- The responder of the parent with an ML-KEM key pair.
mod Wire
use mef.Prelude.{
  ◌+◌, ◌≡◌, refl, arith, Bool, false, true, Bytes, List, [], ◌∷◌, ◌++◌, codes, take, replicate,
  length, All, IsByte, to_be, bytes_eq,
}
use mef.Error.{ok, Ensures}
use mef.Wire.{concat}
use mef.Crypto.Seal.{random_bytes, fill_secure}
use mef.Crypto.Kdf.{blake3_id, any_oversized, feed_parts, derive_secret, domain_label}
use mef.Keys.Dh.{generate, from_secret, public_key, diffie_hellman}
use mef.Keys.Identity.{from_seed, sign, verify}
use mef.Keys.Prekey.{issue, sign_prekey, transcript, verify_prekey}
use mef.Pq.{MlKem768KeyPair, encapsulate, shared_secret_from_slice}
use mef.Handshake.Authenticated.{AuthenticatedHandshake, initiator}
use mef.Handshake.Message.{
  identity_public, identity_binding_transcript, verify_identity, encode_message, one_time_segments,
}
use mef.Handshake.Bundle.{verify_bundle, encode_bundle, offer_segments}
use mef.Handshake.Material.{bundle, local_public}
use mef.Handshake.Serves.{Keeps}
use mef.Hybrid.Bundle.{
  HybridResponderPrekeyBundle, binding_transcript, verify_hybrid_bundle, encode_hybrid_bundle,
  decode_hybrid_bundle,
}
use mef.Hybrid.Message.{HybridInitiatorHandshake, encode_hybrid_message, decode_hybrid_message}
use mef.Hybrid.Agreement.{
  HybridResponderPrekeyMaterial, hybrid_bundle, initiate_hybrid, mix_ml_kem768,
}
use mef.Hybrid.Calls.{HybridCall, add_prekey, classical_calls, run_hybrid}
use mef.Hybrid.Valid.{IsHybrid}
use mef.Hybrid.Matches.{HybridMeets, accept_hybrid-initiate_hybrid}
use mef.Tests.Toy.{toy, toy-IsDh, toy-IsSigning}
use mef.Tests.Kem.{toy_kem, toy_kem-IsMlKem, secret_of, key_bytes}
use mef.Tests.Prekeys.{
  bob_keys, bob_keys-IsMaterial, local_of, alice-IsLocal, first_message, alice_result,
  alice-initiates, pair_of,
}

abbrev pub hybrid_bob : HybridResponderPrekeyMaterial Bool Bool
hybrid_bob = record { classical = bob_keys; pq = record { secret = true; public = false } }

pub hybrid_bob-IsHybrid : IsHybrid toy toy_kem hybrid_bob
hybrid_bob-IsHybrid = record { classical_valid = bob_keys-IsMaterial; own_key = refl }

abbrev pub bob_bundle : HybridResponderPrekeyBundle Bool
unfolding from_seed sign bob_keys bundle
bob_bundle = record {
  classical = bundle toy bob_keys;
  pq_public = false;
  pq_signature = sign toy (from_seed toy (replicate 32 5)) (
      take 32
        (codes "MEF-26" ++ 0 ∷ codes "blake3-id" ++ 0 ∷ codes "handshake-mlkem768-bundle-v1"));
}

bob_bundle-made : hybrid_bundle toy toy_kem hybrid_bob ≡ ok bob_bundle
unfolding hybrid_bundle bob_bundle binding_transcript blake3_id any_oversized feed_parts bundle
    bob_keys encode_bundle concat offer_segments from_seed sign issue sign_prekey transcript
    local_public identity_public identity_binding_transcript to_be key_bytes
bob_bundle-made = refl

-- What Alice sends and keeps: the first message, and the secret of the third request.
abbrev pub hybrid_message : HybridInitiatorHandshake
hybrid_message = record {
  classical = first_message;
  pq_ciphertext = secret_of false (replicate 32 3) ++ replicate 1056 0;
}

abbrev mixed_result : AuthenticatedHandshake
mixed_result = record alice_result {
  session_id =
      take 32 (
        codes "MEF-26"
        ++ 0 ∷ codes "blake3-id"
        ++ 0 ∷ codes "handshake-hybrid-mlkem768-session-v1");
}

bob_bundle-verifies : verify_hybrid_bundle toy toy_kem bob_bundle 1000 ≡ ok tt
unfolding verify_hybrid_bundle verify_bundle verify_identity verify verify_prekey bytes_eq
    bob_bundle binding_transcript blake3_id any_oversized feed_parts bundle bob_keys encode_bundle
    concat offer_segments from_seed sign issue sign_prekey transcript local_public identity_public
    identity_binding_transcript to_be key_bytes
bob_bundle-verifies = refl

alice-encapsulates :
    encapsulate toy toy_kem false tt 2
    ≡ (ok (hybrid_message.pq_ciphertext, secret_of false (replicate 32 3)), tt, 3)
unfolding encapsulate fill_secure shared_secret_from_slice
alice-encapsulates = refl

alice-mixes : mix_ml_kem768 toy alice_result (secret_of false (replicate 32 3)) ≡ ok mixed_result
unfolding mix_ml_kem768 blake3_id any_oversized feed_parts derive_secret domain_label concat
alice-mixes = refl

alice-initiates_hybrid :
    initiate_hybrid toy toy_kem (local_of 9) bob_bundle 1000 tt 0
    ≡ (ok (hybrid_message, mixed_result), tt, 3)
unfolding initiate_hybrid bob_bundle
alice-initiates_hybrid =
    rw (bob_bundle-verifies, alice-initiates, alice-encapsulates, alice-mixes) refl

-- Bob adds a prekey before the message arrives.
abbrev adding : List HybridCall
adding = add_prekey 20 ∷ []

accept_hybrid-initiate_hybrid_example :
    HybridMeets toy toy_kem bob_bundle hybrid_message mixed_result
      (run_hybrid toy toy_kem adding hybrid_bob 5).0
      9
accept_hybrid-initiate_hybrid_example =
    accept_hybrid-initiate_hybrid toy toy_kem hybrid_bob bob_bundle (local_of 9) adding
      hybrid_message mixed_result 1000 0 3 5 9 toy_kem-IsMlKem toy-IsDh toy-IsSigning
      hybrid_bob-IsHybrid alice-IsLocal bob_bundle-made (tt, tt) alice-initiates_hybrid
