-- ===== src/Handshake/Canonical.antt =====
-- handshake.rs: `InitiatorHandshake::decode` on arbitrary bytes.
use mef.Prelude.{
  ℕ, zero, suc, ◌+◌, ◌≤◌, ◌≡◌, refl, sym, ap, ◌∙◌, true, false, not, List, [], ◌∷◌, ◌++◌, Option,
  arith, Bytes, IsByte, All, All-take, All-drop, length, length-take, length-drop, take, drop,
  drop-length, append-nil, ◌==◌, to_be, from_be, to_be-from_be, bytes_eq, replicate, Bool-cases,
  inl, inr,
}
use mef.Error.{ok, err, Ensures, Ensures-bind, Ensures-guard, invalid_frame}
use mef.Wire.{index, concat, split_from}
use mef.Wire.Laws.{index-eq, copy_at-eq, slice-eq, concat-split_from}
use mef.Crypto.Primitives.{Primitives}
use mef.Handshake.Verified.{parse_public-Ensures, same_byte, same_bytes, verify_identity-Ensures}
use mef.Handshake.Message.{
  IdentityDhPublic, InitiatorHandshake, handshake_magic, handshake_version, message_segments,
  message_len, one_time_segments, encode_message, decode_message, decode_one_time, verify_identity,
}

-- The message's identity verifies, and its encoding is the bytes.
abbrev pub IsAccepted : Primitives → Bytes → InitiatorHandshake → Type 0
IsAccepted p bytes m = (verify_identity p m.initiator_identity ≡ ok tt) × (encode_message m ≡ bytes)

same_length : (n : ℕ) → not (n == message_len) ≡ false → n ≡ 205
same_length n h = ground arith

module _ (bytes : Bytes) (v : All IsByte bytes) (size : length bytes ≡ 205) where
  abbrev part : ℕ → ℕ → Bytes
  part a n = take n (drop a bytes)

  part_back : (a : ℕ) → a + 4 ≤ 205 → to_be 4 (from_be (part a 4)) ≡ part a 4
  part_back a h =
      to_be-from_be 4 (part a 4) (All-take IsByte 4 (drop a bytes) (All-drop IsByte a bytes v))
        (length-take 4 (drop a bytes) (omega (arith, length-drop a bytes)))

  abbrev ReadsOneTime : Option ℕ → Type 0
  ReadsOneTime id = one_time_segments id ≡ part 200 1 ∷ part 201 4 ∷ []

  decode_one_time-Ensures :
      (tag : ℕ) → part 200 1 ≡ tag ∷ [] → Ensures ReadsOneTime (decode_one_time tag bytes)
  unfolding decode_one_time one_time_segments to_be
  decode_one_time-Ensures zero h = rw (slice-eq 201 205 bytes (omega arith) (omega arith)) (
      Ensures-guard ReadsOneTime (not (bytes_eq (part 201 4) (replicate 4 0))) invalid_frame _
        λ unused. rw (h, same_bytes (part 201 4) (replicate 4 0) unused) refl)
  decode_one_time-Ensures (suc zero) h =
      rw (copy_at-eq 201 4 bytes (omega arith))
        (rw h (ap (λ (s : Bytes). (1 ∷ []) ∷ s ∷ []) (part_back 201 (omega arith))))
  decode_one_time-Ensures (suc (suc n)) h = tt

  widths : List ℕ
  widths = 3 ∷ 1 ∷ 32 ∷ 32 ∷ 64 ∷ 32 ∷ 32 ∷ 4 ∷ 1 ∷ 4 ∷ []

  nothing_left : drop 205 bytes ≡ []
  nothing_left = rw (← size) (drop-length bytes)

  whole : concat (split_from 0 widths bytes) ≡ bytes
  unfolding widths
  whole =
      let split = concat (split_from 0 widths bytes) in
      sym (append-nil split)
      ∙ ap (λ rest. split ++ rest) (sym nothing_left)
      ∙ concat-split_from 0 widths bytes

  module _ (p : Primitives) (b3 tag : ℕ) (e3 : index 3 bytes ≡ ok b3) (s3 : part 3 1 ≡ b3 ∷ [])
      (e200 : index 200 bytes ≡ ok tag) (s200 : part 200 1 ≡ tag ∷ []) where
    abbrev identity : IdentityDhPublic
    identity = record { signing = part 4 32; dh = part 36 32; signature = part 68 64 }

    abbrev read : Option ℕ → InitiatorHandshake
    read id = record {
      initiator_identity = identity;
      initiator_ephemeral = part 132 32;
      initiator_ratchet = part 164 32;
      signed_prekey_id = from_be (part 196 4);
      one_time_prekey_id = id;
    }

    encode-read :
        (id : Option ℕ)
        → take 3 bytes ≡ handshake_magic
        → b3 ≡ handshake_version
        → ReadsOneTime id
        → encode_message (read id) ≡ bytes
    unfolding encode_message split_from widths
    encode-read id m v3 one_time =
        let segments : message_segments (read id) ≡ split_from 0 widths bytes =
          cc (part_back 196 (omega arith), one_time, m, v3, s3) in
        ap concat segments ∙ whole

    decode_message-Ensures_sized : Ensures (IsAccepted p bytes) (decode_message p bytes)
    unfolding decode_message
    decode_message-Ensures_sized =
        rw
          (
            size,
            slice-eq 0 3 bytes (omega arith) (omega arith),
            e3,
            e200,
            copy_at-eq 4 32 bytes (omega arith),
            copy_at-eq 36 32 bytes (omega arith),
            copy_at-eq 68 64 bytes (omega arith),
            copy_at-eq 132 32 bytes (omega arith),
            copy_at-eq 164 32 bytes (omega arith),
            copy_at-eq 196 4 bytes (omega arith),
          )
          (Ensures-guard (IsAccepted p bytes) (not (bytes_eq (take 3 bytes) handshake_magic))
            invalid_frame _
            λ named.
              Ensures-guard (IsAccepted p bytes) (not (b3 == handshake_version)) invalid_frame _
                λ versioned.
                  Ensures-bind (λ key. key ≡ part 4 32) (IsAccepted p bytes) _ _
                    (parse_public-Ensures p (part 4 32))
                    λ key key_read.
                      Ensures-bind ReadsOneTime (IsAccepted p bytes) _ _
                        (decode_one_time-Ensures tag s200)
                        λ id one_time. rw key_read (
                          Ensures-bind (λ _. verify_identity p identity ≡ ok tt)
                            (IsAccepted p bytes) _ _ (verify_identity-Ensures p identity)
                            λ u verified. (
                              verified,
                              encode-read id (same_bytes (take 3 bytes) handshake_magic named)
                                  (same_byte b3 handshake_version versioned) one_time,
                            )))

decode_message-length :
    (p : Primitives) (bytes : Bytes)
    → not (length bytes == message_len) ≡ true
    → decode_message p bytes ≡ err invalid_frame
unfolding decode_message
decode_message-length p bytes h = rw h refl

-- On any bytes the parser of a handshake message ends without reading out of bounds; if it accepts,
-- the identity of the message verifies, and the bytes are the encoding of the message.
pub decode_message-Ensures :
    (p : Primitives) (bytes : Bytes)
    → All IsByte bytes
    → Ensures (IsAccepted p bytes) (decode_message p bytes)
decode_message-Ensures p bytes v = elim (Bool-cases (not (length bytes == message_len))) [
  | inl other ↦ rw (decode_message-length p bytes other) tt
  | inr sized ↦
      let size = same_length (length bytes) sized in
      let (b3, e3, s3) = index-eq 3 bytes (omega arith) in
      let (tag, e200, s200) = index-eq 200 bytes (omega arith) in
      decode_message-Ensures_sized bytes v size p b3 tag e3 s3 e200 s200
]
