-- ===== src/Handshake/Bundle/RoundTrip.antt =====
-- handshake.rs: `ResponderPrekeyBundle::encode` followed by `ResponderPrekeyBundle::decode`.
use mef.Prelude.{
  ℕ, ◌≤◌, ◌≡◌, refl, ◌∙◌, List, [], ◌∷◌, ◌++◌, Option, none, some, arith, Bytes, length, take,
  bytes_eq, bytes_eq_refl, to_be, from_be-to_be, length-to_be, length-replicate, replicate, u32_max,
  u64_max,
}
use mef.Error.{ok}
use mef.Wire.{index, slice, copy_at, concat, total}
use mef.Wire.Laws.{
  copy_at-segment, index-segment, slice-segment, length-concat, concat-regroup, total-append,
  concat-join,
}
use mef.Crypto.Primitives.{Primitives}
use mef.Handshake.Verified.{key_parses}
use mef.Handshake.Message.{handshake_version, verify_identity}
use mef.Handshake.Bundle.{
  OneTimePrekeyPublic, ResponderPrekeyBundle, bundle_magic, bundle_segments, offer_segments,
  encode_bundle, decode_bundle, decode_offer,
}

abbrev pub IsOffered : Option OneTimePrekeyPublic → Type 0
IsOffered none = Unit {0}
IsOffered (some prekey) = (prekey.id ≤ u32_max) × (length prekey.public ≡ 32)

-- Arrays of the source's widths, identifiers of 32 bits and an expiry of 64.
pub record IsBundle (b : ResponderPrekeyBundle) : Type 0 where
  pub signing_len : length b.identity.signing ≡ 32
  pub dh_len : length b.identity.dh ≡ 32
  pub signature_len : length b.identity.signature ≡ 64
  pub id_fits : b.signed_prekey.key_id ≤ u32_max
  pub prekey_len : length b.signed_prekey.public ≡ 32
  pub expiry_fits : b.signed_prekey.expires_at_unix ≤ u64_max
  pub prekey_signature_len : length b.signed_prekey.signature ≡ 64
  pub offered : IsOffered b.one_time_prekey

length-offer : (o : Option OneTimePrekeyPublic) → IsOffered o → total (offer_segments o) ≡ 37
unfolding offer_segments
length-offer none v = omega (arith, length-to_be 4 0, length-replicate {A = ℕ} 32 0)
length-offer (some prekey) v = omega (arith, length-to_be 4 prekey.id, v.1)

-- What is read behind the first 240 bytes.
module _ (pre : List Bytes) (ahead : total pre ≡ 240) where
  abbrev tag_of : Option OneTimePrekeyPublic → ℕ
  tag_of none = 0
  tag_of (some prekey) = 1

  read_tag :
      (o : Option OneTimePrekeyPublic)
      → index 240 (concat (pre ++ offer_segments o)) ≡ ok (tag_of o)
  unfolding offer_segments
  read_tag none = index-segment pre 0 _ 240 ahead
  read_tag (some prekey) = index-segment pre 1 _ 240 ahead

  tag_counted : (tag : ℕ) → total (pre ++ (tag ∷ []) ∷ []) ≡ 241
  tag_counted tag = omega (arith, total-append pre ((tag ∷ []) ∷ []))

  regrouped :
      (tag : ℕ) (s t : Bytes)
      → concat (pre ++ (tag ∷ []) ∷ s ∷ t ∷ []) ≡ concat ((pre ++ (tag ∷ []) ∷ []) ++ s ∷ t ∷ [])
  regrouped tag s t = concat-regroup _ pre ((tag ∷ []) ∷ []) (s ∷ t ∷ []) refl

  read_id :
      (id : ℕ) (public : Bytes)
      → copy_at 241 4 (concat (pre ++ (1 ∷ []) ∷ to_be 4 id ∷ public ∷ [])) ≡ ok (to_be 4 id)
  read_id id public = rw (regrouped 1 (to_be 4 id) public) (
      copy_at-segment (pre ++ (1 ∷ []) ∷ []) (to_be 4 id) (public ∷ []) 241 4 (tag_counted 1)
        (length-to_be 4 id))

  read_public :
      (id : ℕ) (public : Bytes)
      → length public ≡ 32
      → copy_at 245 32 (concat (pre ++ (1 ∷ []) ∷ to_be 4 id ∷ public ∷ [])) ≡ ok public
  read_public id public len =
      rw (concat-regroup _ pre ((1 ∷ []) ∷ to_be 4 id ∷ []) (public ∷ []) refl) (
        copy_at-segment (pre ++ (1 ∷ []) ∷ to_be 4 id ∷ []) public [] 245 32
          (omega (arith, total-append pre ((1 ∷ []) ∷ to_be 4 id ∷ []), length-to_be 4 id)) len)

  read_offer :
      (o : Option OneTimePrekeyPublic)
      → IsOffered o
      → decode_offer (tag_of o) (concat (pre ++ offer_segments o)) ≡ ok o
  unfolding offer_segments decode_offer to_be bytes_eq
  read_offer none fits =
      rw
        (
          regrouped 0 (to_be 4 0) (replicate 32 0),
          concat-join (pre ++ (0 ∷ []) ∷ []) (to_be 4 0) (replicate 32 0),
          slice-segment (pre ++ (0 ∷ []) ∷ []) (to_be 4 0 ++ replicate 32 0) [] 241 277
              (tag_counted 0) refl,
        )
        refl
  read_offer (some prekey) (fits, len) =
      rw
        (
          read_id prekey.id prekey.public,
          read_public prekey.id prekey.public len,
          from_be-to_be 4 prekey.id (omega arith),
        )
        refl

module _ (p : Primitives) (b : ResponderPrekeyBundle) (v : IsBundle b) where
  unfoldable sent : Bytes
  sent = concat (bundle_segments b)

  abbrev before : ℕ → List Bytes
  before k = take k (bundle_segments b)

  abbrev id_len : length (to_be 4 b.signed_prekey.key_id) ≡ 4
  id_len = length-to_be 4 b.signed_prekey.key_id

  abbrev expiry_len : length (to_be 8 b.signed_prekey.expires_at_unix) ≡ 8
  expiry_len = length-to_be 8 b.signed_prekey.expires_at_unix

  length-sent : length sent ≡ 277
  unfolding sent
  length-sent =
      length-concat (bundle_segments b)
      ∙ omega (
        arith,
        v.signing_len,
        v.dh_len,
        v.signature_len,
        id_len,
        v.prekey_len,
        expiry_len,
        v.prekey_signature_len,
        length-offer b.one_time_prekey v.offered,
      )

  read_magic : slice 0 3 sent ≡ ok bundle_magic
  unfolding sent
  read_magic = slice-segment [] bundle_magic _ 0 3 refl refl

  read_version : index 3 sent ≡ ok handshake_version
  unfolding sent
  read_version = index-segment (before 1) handshake_version _ 3 refl

  read_signing : copy_at 4 32 sent ≡ ok b.identity.signing
  unfolding sent
  read_signing = copy_at-segment (before 2) _ _ 4 32 refl v.signing_len

  read_dh : copy_at 36 32 sent ≡ ok b.identity.dh
  unfolding sent
  read_dh = copy_at-segment (before 3) _ _ 36 32 (omega (arith, v.signing_len)) v.dh_len

  read_signature : copy_at 68 64 sent ≡ ok b.identity.signature
  unfolding sent
  read_signature =
      copy_at-segment (before 4) _ _ 68 64 (omega (arith, v.signing_len, v.dh_len)) v.signature_len

  abbrev identity_read : total (before 5) ≡ 132
  identity_read = omega (arith, v.signing_len, v.dh_len, v.signature_len)

  read_prekey_id : copy_at 132 4 sent ≡ ok (to_be 4 b.signed_prekey.key_id)
  unfolding sent
  read_prekey_id = copy_at-segment (before 5) _ _ 132 4 identity_read id_len

  read_prekey : copy_at 136 32 sent ≡ ok b.signed_prekey.public
  unfolding sent
  read_prekey =
      copy_at-segment (before 6) _ _ 136 32 (omega (arith, identity_read, id_len)) v.prekey_len

  abbrev prekey_read : total (before 7) ≡ 168
  prekey_read = omega (arith, identity_read, id_len, v.prekey_len)

  read_expiry : copy_at 168 8 sent ≡ ok (to_be 8 b.signed_prekey.expires_at_unix)
  unfolding sent
  read_expiry = copy_at-segment (before 7) _ _ 168 8 prekey_read expiry_len

  read_prekey_signature : copy_at 176 64 sent ≡ ok b.signed_prekey.signature
  unfolding sent
  read_prekey_signature =
      copy_at-segment (before 8) _ _ 176 64 (omega (arith, prekey_read, expiry_len))
        v.prekey_signature_len

  abbrev record_read : total (before 9) ≡ 240
  record_read = omega (arith, prekey_read, expiry_len, v.prekey_signature_len)

  read_sent_tag : index 240 sent ≡ ok (tag_of (before 9) record_read b.one_time_prekey)
  unfolding sent
  read_sent_tag = read_tag (before 9) record_read b.one_time_prekey

  read_sent_offer :
      decode_offer (tag_of (before 9) record_read b.one_time_prekey) sent ≡ ok b.one_time_prekey
  unfolding sent
  read_sent_offer = read_offer (before 9) record_read b.one_time_prekey v.offered

  -- A bundle whose identity verifies has an encoding of 277 bytes, and parsing the encoding gives
  -- back the bundle. Its fields have their widths.
  pub decode_bundle-encode_bundle :
      verify_identity p b.identity ≡ ok tt
      → (length (encode_bundle b) ≡ 277) × (decode_bundle p (encode_bundle b) ≡ ok b)
  unfolding sent encode_bundle decode_bundle
  decode_bundle-encode_bundle verified = (
    length-sent,
    rw
        (
          length-sent,
          read_magic,
          bytes_eq_refl bundle_magic,
          read_version,
          read_signing,
          key_parses p b.identity verified,
          read_dh,
          read_signature,
          verified,
          read_prekey_id,
          read_prekey,
          read_expiry,
          read_prekey_signature,
          read_sent_tag,
          read_sent_offer,
          from_be-to_be 4 b.signed_prekey.key_id (omega (arith, v.id_fits)),
          from_be-to_be 8 b.signed_prekey.expires_at_unix (omega (arith, v.expiry_fits)),
        )
        refl,
  )
