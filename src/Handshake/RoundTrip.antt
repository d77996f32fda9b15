-- ===== src/Handshake/RoundTrip.antt =====
-- handshake.rs: `InitiatorHandshake::encode` followed by `InitiatorHandshake::decode`.
use mef.Prelude.{
  ℕ, ◌≤◌, ◌≡◌, refl, ◌∙◌, List, [], ◌∷◌, ◌++◌, Option, none, some, arith, Bytes, length, take,
  bytes_eq, bytes_eq_refl, to_be, from_be-to_be, length-to_be, u32_max,
}
use mef.Error.{ok}
use mef.Wire.{index, slice, copy_at, concat, total}
use mef.Wire.Laws.{
  copy_at-segment, index-segment, slice-segment, length-concat, concat-regroup, total-append,
}
use mef.Crypto.Primitives.{Primitives}
use mef.Handshake.Verified.{key_parses}
use mef.Handshake.Message.{
  InitiatorHandshake, handshake_magic, handshake_version, message_segments, one_time_segments,
  encode_message, decode_message, decode_one_time, verify_identity,
}

abbrev pub IsOneTime : Option ℕ → Type 0
IsOneTime none = Unit {0}
IsOneTime (some id) = id ≤ u32_max

length-one_time : (id : Option ℕ) → total (one_time_segments id) ≡ 5
unfolding one_time_segments
length-one_time none = omega (arith, length-to_be 4 0)
length-one_time (some id) = omega (arith, length-to_be 4 id)

-- What is read behind the first 200 bytes.
module _ (pre : List Bytes) (ahead : total pre ≡ 200) where
  abbrev tag_of : Option ℕ → ℕ
  tag_of none = 0
  tag_of (some id) = 1

  read_tag : (id : Option ℕ) → index 200 (concat (pre ++ one_time_segments id)) ≡ ok (tag_of id)
  unfolding one_time_segments
  read_tag none = index-segment pre 0 _ 200 ahead
  read_tag (some id) = index-segment pre 1 _ 200 ahead

  tag_counted : (tag : ℕ) → total (pre ++ (tag ∷ []) ∷ []) ≡ 201
  tag_counted tag = omega (arith, total-append pre ((tag ∷ []) ∷ []))

  regrouped :
      (tag : ℕ) (s : Bytes)
      → concat (pre ++ (tag ∷ []) ∷ s ∷ []) ≡ concat ((pre ++ (tag ∷ []) ∷ []) ++ s ∷ [])
  regrouped tag s = concat-regroup _ pre ((tag ∷ []) ∷ []) (s ∷ []) refl

  read_one_time :
      (id : Option ℕ)
      → IsOneTime id
      → decode_one_time (tag_of id) (concat (pre ++ one_time_segments id)) ≡ ok id
  unfolding one_time_segments decode_one_time to_be bytes_eq
  read_one_time none fits =
      rw
        (
          regrouped 0 (to_be 4 0),
          slice-segment (pre ++ (0 ∷ []) ∷ []) (to_be 4 0) [] 201 205 (tag_counted 0) refl,
        )
        refl
  read_one_time (some id) fits =
      rw
        (
          regrouped 1 (to_be 4 id),
          copy_at-segment (pre ++ (1 ∷ []) ∷ []) (to_be 4 id) [] 201 4 (tag_counted 1)
              (length-to_be 4 id),
          from_be-to_be 4 id (omega arith),
        )
        refl

-- Arrays of the source's widths, and identifiers of 32 bits.
pub record IsHandshake (m : InitiatorHandshake) : Type 0 where
  pub signing_len : length m.initiator_identity.signing ≡ 32
  pub dh_len : length m.initiator_identity.dh ≡ 32
  pub signature_len : length m.initiator_identity.signature ≡ 64
  pub ephemeral_len : length m.initiator_ephemeral ≡ 32
  pub ratchet_len : length m.initiator_ratchet ≡ 32
  pub prekey_fits : m.signed_prekey_id ≤ u32_max
  pub one_time_fits : IsOneTime m.one_time_prekey_id

module _ (p : Primitives) (m : InitiatorHandshake) (v : IsHandshake m) where
  unfoldable sent : Bytes
  sent = concat (message_segments m)

  abbrev before : ℕ → List Bytes
  before k = take k (message_segments m)

  abbrev id_len : length (to_be 4 m.signed_prekey_id) ≡ 4
  id_len = length-to_be 4 m.signed_prekey_id

  length-sent : length sent ≡ 205
  unfolding sent
  length-sent =
      length-concat (message_segments m)
      ∙ omega (
        arith,
        v.signing_len,
        v.dh_len,
        v.signature_len,
        v.ephemeral_len,
        v.ratchet_len,
        id_len,
        length-one_time m.one_time_prekey_id,
      )

  read_magic : slice 0 3 sent ≡ ok handshake_magic
  unfolding sent
  read_magic = slice-segment [] handshake_magic _ 0 3 refl refl

  read_version : index 3 sent ≡ ok handshake_version
  unfolding sent
  read_version = index-segment (before 1) handshake_version _ 3 refl

  read_signing : copy_at 4 32 sent ≡ ok m.initiator_identity.signing
  unfolding sent
  read_signing = copy_at-segment (before 2) _ _ 4 32 refl v.signing_len

  read_dh : copy_at 36 32 sent ≡ ok m.initiator_identity.dh
  unfolding sent
  read_dh = copy_at-segment (before 3) _ _ 36 32 (omega (arith, v.signing_len)) v.dh_len

  read_signature : copy_at 68 64 sent ≡ ok m.initiator_identity.signature
  unfolding sent
  read_signature =
      copy_at-segment (before 4) _ _ 68 64 (omega (arith, v.signing_len, v.dh_len)) v.signature_len

  abbrev identity_read : total (before 5) ≡ 132
  identity_read = omega (arith, v.signing_len, v.dh_len, v.signature_len)

  read_ephemeral : copy_at 132 32 sent ≡ ok m.initiator_ephemeral
  unfolding sent
  read_ephemeral = copy_at-segment (before 5) _ _ 132 32 identity_read v.ephemeral_len

  read_ratchet : copy_at 164 32 sent ≡ ok m.initiator_ratchet
  unfolding sent
  read_ratchet =
      copy_at-segment (before 6) _ _ 164 32 (omega (arith, identity_read, v.ephemeral_len))
        v.ratchet_len

  abbrev keys_read : total (before 7) ≡ 196
  keys_read = omega (arith, identity_read, v.ephemeral_len, v.ratchet_len)

  read_prekey : copy_at 196 4 sent ≡ ok (to_be 4 m.signed_prekey_id)
  unfolding sent
  read_prekey = copy_at-segment (before 7) _ _ 196 4 keys_read id_len

  abbrev prekey_read : total (before 8) ≡ 200
  prekey_read = omega (arith, keys_read, id_len)

  read_sent_tag : index 200 sent ≡ ok (tag_of (before 8) prekey_read m.one_time_prekey_id)
  unfolding sent
  read_sent_tag = read_tag (before 8) prekey_read m.one_time_prekey_id

  read_sent_one_time :
      decode_one_time (tag_of (before 8) prekey_read m.one_time_prekey_id) sent
      ≡ ok m.one_time_prekey_id
  unfolding sent
  read_sent_one_time = read_one_time (before 8) prekey_read m.one_time_prekey_id v.one_time_fits

  -- A handshake message whose identity verifies has an encoding of 205 bytes, and parsing the
  -- encoding gives back the message. Its fields have their widths.
  pub decode_message-encode_message :
      verify_identity p m.initiator_identity ≡ ok tt
      → (length (encode_message m) ≡ 205) × (decode_message p (encode_message m) ≡ ok m)
  unfolding sent encode_message decode_message
  decode_message-encode_message verified = (
    length-sent,
    rw
        (
          length-sent,
          read_magic,
          bytes_eq_refl handshake_magic,
          read_version,
          read_signing,
          key_parses p m.initiator_identity verified,
          read_dh,
          read_signature,
          read_ephemeral,
          read_ratchet,
          read_prekey,
          read_sent_tag,
          read_sent_one_time,
          from_be-to_be 4 m.signed_prekey_id (omega (arith, v.prekey_fits)),
        )
        (rw verified refl),
  )
