-- ===== src/Hybrid/Directory.antt =====
-- hybrid.rs: the bundle that a responder hands out, as a directory delivers it.
use mef.Prelude.{
  ℕ, ◌≤◌, ◌≡◌, refl, ap, ◌∙◌, false, [], ◌∷◌, ◌++◌, to_be, arith, Bytes, length, ltb-false,
  leb-true, u64_max,
}
use mef.Error.{Result, ok, err, panic, ◌>>◌}
use mef.Limits.{max_ciphertext_len}
use mef.Crypto.Primitives.{Primitives, IsSigning}
use mef.Crypto.Kdf.{blake3_id, any_oversized, feed_parts, label_invalid, id_prefix}
use mef.Keys.Identity.{IdentityKeyPair, verify, sign, from_seed}
use mef.Keys.Prekey.{verify_prekey, verdict, issue, verify_prekey-issue}
use mef.Pq.Kem.{MlKem, IsMlKem}
use mef.Handshake.Message.{verify_identity, identity_public}
use mef.Handshake.Bundle.{encode_bundle, verify_bundle}
use mef.Handshake.Bundle.RoundTrip.{IsBundle, decode_bundle-encode_bundle}
use mef.Handshake.Material.{ResponderPrekeyMaterial, bundle, local_public}
use mef.Handshake.Valid.{IsMaterial}
use mef.Handshake.Matches.{verified-local}
use mef.Hybrid.Bundle.{
  HybridResponderPrekeyBundle, IsBound, binding_transcript, encode_hybrid_bundle,
  decode_hybrid_bundle, verify_hybrid_bundle, hybrid_transcript_label,
}
use mef.Hybrid.Agreement.{HybridResponderPrekeyMaterial, hybrid_bundle}
use mef.Hybrid.Valid.{IsHybrid}
use mef.Hybrid.RoundTrip.{decode_hybrid_bundle-encode_hybrid_bundle}

-- Two parts within the limit have an identifier.
blake3_id-two :
    (p : Primitives) (label x y : Bytes)
    → label_invalid label ≡ false
    → length x ≤ max_ciphertext_len
    → length y ≤ max_ciphertext_len
    → (id : Bytes) × (blake3_id p label (x ∷ y ∷ []) ≡ ok id)
unfolding blake3_id any_oversized feed_parts
blake3_id-two p label x y valid hx hy = (
  p.blake3_digest ((id_prefix label ++ (to_be 8 (length x) ++ x)) ++ (to_be 8 (length y) ++ y)),
  rw
      (
        valid,
        ltb-false max_ciphertext_len (length x) hx,
        ltb-false max_ciphertext_len (length y) hy,
        leb-true (length x) u64_max (omega arith),
        leb-true (length y) u64_max (omega arith),
      )
      refl,
)

sign-verifies :
    (p : Primitives) (pair : IdentityKeyPair) (message : Bytes)
    → IsSigning p
    → pair ≡ from_seed p pair.signing
    → verify p pair.public message (sign p pair message) ≡ ok tt
unfolding verify sign from_seed
sign-verifies p pair message signing derived =
    rw (derived, signing.key_valid pair.signing, signing.verifies pair.signing message) refl

after_ok : (r : Result (Unit {0})) → r >> ok tt ≡ r
after_ok (ok u) = refl
after_ok (err e) = refl
after_ok panic = refl

-- The classical bundle verifies until the signed prekey expires.
verify_bundle-bundle :
    (p : Primitives) (m : ResponderPrekeyMaterial) (now : ℕ)
    → IsSigning p
    → IsMaterial p m
    → verify_bundle p (bundle p m) now ≡ verdict m.signed_record.expires_at_unix now
unfolding verify_bundle bundle local_public identity_public issue
verify_bundle-bundle p m now signing v =
    let seed = m.identity.signing.signing in
    let record_ok : verify_prekey p m.signed_record m.identity.signing.public now
        ≡ verdict m.signed_record.expires_at_unix now =
      rw (v.current.issued, v.local.signing_derived)
        (verify_prekey-issue p seed m.signed_record.key_id m.signed_record.public
          m.signed_record.expires_at_unix now signing) in
    rw (verified-local p m.identity signing v.local) record_ok

module _ {D E : Type 0} (p : Primitives) (q : MlKem D E)
    (m : HybridResponderPrekeyMaterial D E) where
  -- The bundle that is handed out arrives as it was sent, and verifies as its signed prekey does.
  pub record IsDelivered (now : ℕ) : Type 0 where
    pub delivered : HybridResponderPrekeyBundle E
    pub made : hybrid_bundle p q m ≡ ok delivered
    pub arrives : decode_hybrid_bundle p q (encode_hybrid_bundle p q delivered) ≡ ok delivered
    pub verifies :
        verify_hybrid_bundle p q delivered now
        ≡ verdict m.classical.signed_record.expires_at_unix now

  -- The hybrid bundle of a valid responder is made, parsing its encoding gives it back, and verifying
  -- it says what the expiry of the signed prekey says, the last second included. The bundle's fields
  -- have their widths; ML-KEM and signatures keep their laws.
  pub hybrid_bundle-IsDelivered :
      (now : ℕ)
      → IsMlKem q
      → IsSigning p
      → IsHybrid p q m
      → IsBundle (bundle p m.classical)
      → IsDelivered now
  unfolding hybrid_bundle binding_transcript verify_hybrid_bundle bundle local_public
      identity_public sign
  hybrid_bundle-IsDelivered now kem signing valid sized =
      let v = valid.classical_valid in
      let c = bundle p m.classical in
      let verified : verify_identity p c.identity ≡ ok tt =
        verified-local p m.classical.identity signing v.local in
      let (len, _) = decode_bundle-encode_bundle p c sized verified in
      let (transcript, hashed) =
        blake3_id-two p hybrid_transcript_label (encode_bundle c) (q.to_bytes m.pq.public) refl
          (omega (arith, len)) (omega (arith, kem.length-to_bytes m.pq.public)) in
      let b : HybridResponderPrekeyBundle E = record {
        classical = c;
        pq_public = m.pq.public;
        pq_signature = sign p m.classical.identity.signing transcript;
      } in
      let bound : IsBound p q b =
        rw hashed (
          sign-verifies p m.classical.identity.signing transcript signing
            v.local.signing_derived) in
      record {
        delivered = b;
        made = rw hashed refl;
        arrives =
            (decode_hybrid_bundle-encode_hybrid_bundle p q kem b sized
              (signing.length-sign m.classical.identity.signing.signing transcript) verified
              bound).1;
        verifies = rw (verify_bundle-bundle p m.classical now signing v) (
            ap (λ r. verdict m.classical.signed_record.expires_at_unix now >> r) bound
            ∙ after_ok _);
      }
