-- ===== src/Handshake/Bundle/Canonical.antt =====
-- handshake.rs: `ResponderPrekeyBundle::decode` on arbitrary bytes.
use mef.Prelude.{
  ℕ, zero, suc, ◌+◌, ◌≤◌, ◌≡◌, refl, sym, ap, ◌∙◌, true, false, not, List, [], ◌∷◌, ◌++◌, Option,
  arith, Bytes, IsByte, All, All-take, All-drop, length, length-take, length-drop, take, drop,
  drop-length, append-nil, ◌==◌, to_be, from_be, to_be-from_be, bytes_eq, replicate, Bool-cases,
  inl, inr,
}
use mef.Error.{ok, err, Ensures, Ensures-bind, Ensures-guard, invalid_frame}
use mef.Wire.{index, concat, split_from}
use mef.Wire.Laws.{
  index-eq, copy_at-eq, slice-eq, concat-split_from, take-add, drop-add, take-of_append,
  drop-of_append,
}
use mef.Crypto.Primitives.{Primitives}
use mef.Handshake.Verified.{parse_public-Ensures, same_byte, same_bytes, verify_identity-Ensures}
use mef.Handshake.Message.{IdentityDhPublic, handshake_version, verify_identity}
use mef.Handshake.Bundle.{
  OneTimePrekeyPublic, ResponderPrekeyBundle, bundle_magic, bundle_len, bundle_segments,
  offer_segments, encode_bundle, decode_bundle, decode_offer,
}

-- The bundle's identity verifies, and its encoding is the bytes.
abbrev pub IsAccepted : Primitives → Bytes → ResponderPrekeyBundle → Type 0
IsAccepted p bytes b = (verify_identity p b.identity ≡ ok tt) × (encode_bundle b ≡ bytes)

same_length : (n : ℕ) → not (n == bundle_len) ≡ false → n ≡ 277
same_length n h = ground arith

module _ (bytes : Bytes) (v : All IsByte bytes) (size : length bytes ≡ 277) where
  abbrev part : ℕ → ℕ → Bytes
  part a n = take n (drop a bytes)

  length-part : (a n : ℕ) → a + n ≤ 277 → length (part a n) ≡ n
  length-part a n h = length-take n (drop a bytes) (omega (arith, length-drop a bytes))

  part_back : (a n : ℕ) → a + n ≤ 277 → to_be n (from_be (part a n)) ≡ part a n
  part_back a n h =
      to_be-from_be n (part a n) (All-take IsByte n (drop a bytes) (All-drop IsByte a bytes v))
        (length-part a n h)

  abbrev ReadsOffer : Option OneTimePrekeyPublic → Type 0
  ReadsOffer o = offer_segments o ≡ part 240 1 ∷ part 241 4 ∷ part 245 32 ∷ []

  unused_parts : part 241 36 ≡ replicate 36 0 → part 241 4 ++ part 245 32 ≡ replicate 36 0
  unused_parts h = rw (drop-add 241 4 bytes) (sym (take-add 4 32 (drop 241 bytes)) ∙ h)

  decode_offer-Ensures :
      (tag : ℕ) → part 240 1 ≡ tag ∷ [] → Ensures ReadsOffer (decode_offer tag bytes)
  unfolding decode_offer offer_segments to_be
  decode_offer-Ensures zero h = rw (slice-eq 241 277 bytes (omega arith) (omega arith)) (
      Ensures-guard ReadsOffer (not (bytes_eq (part 241 36) (replicate 36 0))) invalid_frame _
        λ unused.
          let zeros = unused_parts (same_bytes (part 241 36) (replicate 36 0) unused) in
          let len = length-part 241 4 (omega arith) in
          rw
            (
              h,
              take-of_append 4 (part 241 4) (part 245 32) (replicate 36 0) zeros len,
              sym (drop-of_append 4 (part 241 4) (part 245 32) len) ∙ ap (drop 4) zeros,
            )
            refl)
  decode_offer-Ensures (suc zero) h =
      rw (copy_at-eq 241 4 bytes (omega arith), copy_at-eq 245 32 bytes (omega arith))
        (rw h (ap (λ (s : Bytes). (1 ∷ []) ∷ s ∷ part 245 32 ∷ []) (part_back 241 4 (omega arith))))
  decode_offer-Ensures (suc (suc n)) h = tt

  widths : List ℕ
  widths = 3 ∷ 1 ∷ 32 ∷ 32 ∷ 64 ∷ 4 ∷ 32 ∷ 8 ∷ 64 ∷ 1 ∷ 4 ∷ 32 ∷ []

  nothing_left : drop 277 bytes ≡ []
  nothing_left = rw (← size) (drop-length bytes)

  whole : concat (split_from 0 widths bytes) ≡ bytes
  unfolding widths
  whole =
      let split = concat (split_from 0 widths bytes) in
      sym (append-nil split)
      ∙ ap (λ rest. split ++ rest) (sym nothing_left)
      ∙ concat-split_from 0 widths bytes

  module _ (p : Primitives) (b3 tag : ℕ) (e3 : index 3 bytes ≡ ok b3) (s3 : part 3 1 ≡ b3 ∷ [])
      (e240 : index 240 bytes ≡ ok tag) (s240 : part 240 1 ≡ tag ∷ []) where
    abbrev identity : IdentityDhPublic
    identity = record { signing = part 4 32; dh = part 36 32; signature = part 68 64 }

    abbrev read : Option OneTimePrekeyPublic → ResponderPrekeyBundle
    read o = record {
      identity = identity;
      signed_prekey = record {
        key_id = from_be (part 132 4);
        public = part 136 32;
        expires_at_unix = from_be (part 168 8);
        signature = part 176 64;
      };
      one_time_prekey = o;
    }

    encode-read :
        (o : Option OneTimePrekeyPublic)
        → take 3 bytes ≡ bundle_magic
        → b3 ≡ handshake_version
        → ReadsOffer o
        → encode_bundle (read o) ≡ bytes
    unfolding encode_bundle split_from widths
    encode-read o m v3 offer =
        let segments : bundle_segments (read o) ≡ split_from 0 widths bytes =
          cc (part_back 132 4 (omega arith), part_back 168 8 (omega arith), offer, m, v3, s3) in
        ap concat segments ∙ whole

    decode_bundle-Ensures_sized : Ensures (IsAccepted p bytes) (decode_bundle p bytes)
    unfolding decode_bundle
    decode_bundle-Ensures_sized =
        rw
          (
            size,
            slice-eq 0 3 bytes (omega arith) (omega arith),
            e3,
            e240,
            copy_at-eq 4 32 bytes (omega arith),
            copy_at-eq 36 32 bytes (omega arith),
            copy_at-eq 68 64 bytes (omega arith),
            copy_at-eq 132 4 bytes (omega arith),
            copy_at-eq 136 32 bytes (omega arith),
            copy_at-eq 168 8 bytes (omega arith),
            copy_at-eq 176 64 bytes (omega arith),
          )
          (Ensures-guard (IsAccepted p bytes) (not (bytes_eq (take 3 bytes) bundle_magic))
            invalid_frame _
            λ named.
              Ensures-guard (IsAccepted p bytes) (not (b3 == handshake_version)) invalid_frame _
                λ versioned.
                  Ensures-bind (λ key. key ≡ part 4 32) (IsAccepted p bytes) _ _
                    (parse_public-Ensures p (part 4 32))
                    λ key key_read. rw key_read (
                      Ensures-bind (λ _. verify_identity p identity ≡ ok tt) (IsAccepted p bytes) _
                        _ (verify_identity-Ensures p identity)
                        λ u verified.
                          Ensures-bind ReadsOffer (IsAccepted p bytes) _ _
                            (decode_offer-Ensures tag s240)
                            λ o offer. (
                              verified,
                              encode-read o (same_bytes (take 3 bytes) bundle_magic named)
                                  (same_byte b3 handshake_version versioned) offer,
                            )))

decode_bundle-length :
    (p : Primitives) (bytes : Bytes)
    → not (length bytes == bundle_len) ≡ true
    → decode_bundle p bytes ≡ err invalid_frame
unfolding decode_bundle
decode_bundle-length p bytes h = rw h refl

-- On any bytes the parser of a bundle ends without reading out of bounds; if it accepts, the identity
-- of the bundle verifies, and the bytes are the encoding of the bundle.
pub decode_bundle-Ensures :
    (p : Primitives) (bytes : Bytes)
    → All IsByte bytes
    → Ensures (IsAccepted p bytes) (decode_bundle p bytes)
decode_bundle-Ensures p bytes v = elim (Bool-cases (not (length bytes == bundle_len))) [
  | inl other ↦ rw (decode_bundle-length p bytes other) tt
  | inr sized ↦
      let size = same_length (length bytes) sized in
      let (b3, e3, s3) = index-eq 3 bytes (omega arith) in
      let (tag, e240, s240) = index-eq 240 bytes (omega arith) in
      decode_bundle-Ensures_sized bytes v size p b3 tag e3 s3 e240 s240
]
