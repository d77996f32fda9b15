-- ===== src/Envelope/Canonical.antt =====
-- envelope/outer.rs: `decode` on arbitrary bytes.
use mef.Prelude.{
  ℕ, ◌+◌, ◌-◌, ◌≤◌, ◌<◌, ◌≡◌, refl, sym, ap, ◌∙◌, Bool, true, false, not, ◌||◌, List, [], ◌∷◌, ◌++◌,
  arith, Bytes, IsByte, All, All-take, All-drop, length, length-take, length-drop, take, drop,
  drop-length, ltb, ◌==◌, from_be, from_be-lt, to_be-from_be, bytes_eq, Bool-cases, inl, inr,
  leb-true, ltb-false, usize_max, ◌^◌, append-nil,
}
use mef.Error.{ok, err, Ensures, Ensures-bind, Ensures-guard, invalid_frame}
use mef.Wire.{sum, index, concat, split_from}
use mef.Wire.Laws.{index-eq, copy_at-eq, slice-eq, slice-eq_width, concat-split_from}
use mef.Limits.{max_ciphertext_len}
use mef.Crypto.Aead.{body_len_fits, aead_tag_len}
use mef.Crypto.Suite
use mef.Crypto.Suite.{AeadSuite}
use mef.Handshake.Verified.{same_byte, same_bytes}
use mef.Frame.Valid.{from_parts-eq}
use mef.Envelope.Outer.{
  OuterEnvelope, outer_magic, outer_version, outer_suite, outer_fixed_len, encode, decode,
}
use mef.Envelope.Valid.{
  IsEnvelope, envelope_segments, encode-eq_envelope, from_ciphertext-eq_envelope,
}

-- A valid envelope whose encoding is the bytes.
abbrev pub IsWritten : Bytes → OuterEnvelope → Type 0
IsWritten bytes e = IsEnvelope e × (encode e ≡ ok bytes)

abbrev outside : Bytes → Bool
outside bytes =
    ltb (length bytes) outer_fixed_len
    || ltb (max_ciphertext_len + (outer_fixed_len + 24)) (length bytes)

outside-decode : (bytes : Bytes) → outside bytes ≡ true → decode bytes ≡ err invalid_frame
unfolding decode
outside-decode bytes h = rw h

window_facts :
    (n : ℕ)
    → (ltb n outer_fixed_len || ltb (max_ciphertext_len + (outer_fixed_len + 24)) n) ≡ false
    → (outer_fixed_len ≤ n) × (n ≤ max_ciphertext_len + (outer_fixed_len + 24))
window_facts n h = ground arith

sized_facts :
    (nonce_len body_len : ℕ)
    → (not (nonce_len == 24) || not (body_len_fits body_len)) ≡ false
    → (nonce_len ≡ 24) × (aead_tag_len ≤ body_len) × (body_len ≤ max_ciphertext_len)
sized_facts nonce_len body_len h = ground arith

fixed_suite : (suite : AeadSuite) → not (Suite.same suite outer_suite) ≡ false → suite ≡ outer_suite
fixed_suite suite h = ground (arith, Suite.same_sound suite outer_suite)

module _ (bytes : Bytes) (v : All IsByte bytes) (lo : outer_fixed_len ≤ length bytes) where
  abbrev part : ℕ → ℕ → Bytes
  part a n = take n (drop a bytes)

  part-IsByte : (a n : ℕ) → All IsByte (part a n)
  part-IsByte a n = All-take IsByte n (drop a bytes) (All-drop IsByte a bytes v)

  length-part : (a n : ℕ) → a + n ≤ length bytes → length (part a n) ≡ n
  length-part a n h = length-take n (drop a bytes) (omega (arith, length-drop a bytes))

  abbrev body_len : ℕ
  body_len = from_be (part 94 4)

  small_len : body_len < 2 ^ 32
  small_len = from_be-lt 4 (part 94 4) (part-IsByte 94 4) (length-part 94 4 (omega arith))

  -- The envelope that the parser builds from its reads.
  abbrev parsed : OuterEnvelope
  parsed = record {
    mailbox = part 5 32;
    message_id = part 37 16;
    expires_at_unix = from_be (part 53 8);
    sender_ephemeral = part 61 32;
    ciphertext = record { suite = outer_suite; nonce = part 98 24; body = part 122 body_len };
  }

  module _ (whole : length bytes ≡ 122 + body_len) (low : aead_tag_len ≤ body_len)
      (high : body_len ≤ max_ciphertext_len) where
    parsed-IsEnvelope : IsEnvelope parsed
    unfolding Suite.nonce_len
    parsed-IsEnvelope = record {
      mailbox_len = length-part 5 32 (omega arith);
      id_len = length-part 37 16 (omega arith);
      expires_fits =
          omega (arith, from_be-lt 8 _ (part-IsByte 53 8) (length-part 53 8 (omega arith)));
      sender_len = length-part 61 32 (omega arith);
      suite_fixed = refl;
      ciphertext_valid = record {
        nonce_fits = length-part 98 24 (omega arith);
        body_low = rw (length-part 122 body_len (omega arith)) low;
        body_high = rw (length-part 122 body_len (omega arith)) high;
      };
    }

    widths : List ℕ
    widths = 3 ∷ 1 ∷ 1 ∷ 32 ∷ 16 ∷ 8 ∷ 32 ∷ 1 ∷ 4 ∷ 24 ∷ body_len ∷ []

    split_whole : concat (split_from 0 widths bytes) ≡ bytes
    unfolding widths
    split_whole =
        let split = concat (split_from 0 widths bytes) in
        let counted : length bytes ≡ 0 + sum widths = omega (arith, whole) in
        sym (append-nil split)
        ∙ ap (λ rest. split ++ rest) (sym (drop-length bytes))
        ∙ ap (λ n. split ++ drop n bytes) counted
        ∙ concat-split_from 0 widths bytes

    parsed-IsWritten :
        part 0 3 ≡ outer_magic
        → part 3 1 ≡ outer_version ∷ []
        → part 4 1 ≡ Suite.id outer_suite ∷ []
        → part 93 1 ≡ 24 ∷ []
        → IsWritten bytes parsed
    unfolding split_from widths
    parsed-IsWritten e0 e3 e4 e93 =
        let segments : envelope_segments parsed ≡ split_from 0 widths bytes = cc (
          length-part 122 body_len (omega arith),
          to_be-from_be 8 _ (part-IsByte 53 8) (length-part 53 8 (omega arith)),
          to_be-from_be 4 _ (part-IsByte 94 4) (length-part 94 4 (omega arith)),
        ) in
        (
          parsed-IsEnvelope,
          encode-eq_envelope parsed parsed-IsEnvelope ∙ ap ok (ap concat segments ∙ split_whole),
        )

  module _ (hi : length bytes ≤ max_ciphertext_len + (outer_fixed_len + 24)) (b3 b4 b93 : ℕ)
      (e3 : index 3 bytes ≡ ok b3) (s3 : part 3 1 ≡ b3 ∷ []) (e4 : index 4 bytes ≡ ok b4)
      (s4 : part 4 1 ≡ b4 ∷ []) (e93 : index 93 bytes ≡ ok b93) (s93 : part 93 1 ≡ b93 ∷ []) where
    decode-IsWritten_window : Ensures (IsWritten bytes) (decode bytes)
    unfolding decode Suite.nonce_len
    decode-IsWritten_window =
        rw
          (
            ltb-false (length bytes) outer_fixed_len lo,
            ltb-false (max_ciphertext_len + (outer_fixed_len + 24)) (length bytes) hi,
            slice-eq 0 3 bytes (omega arith) (omega arith),
            e3,
            e4,
            e93,
            copy_at-eq 5 32 bytes (omega arith),
            copy_at-eq 37 16 bytes (omega arith),
            copy_at-eq 53 8 bytes (omega arith),
            copy_at-eq 61 32 bytes (omega arith),
            copy_at-eq 94 4 bytes (omega arith),
            leb-true body_len usize_max (omega (arith, small_len)),
          )
          (Ensures-guard (IsWritten bytes) (not (bytes_eq (part 0 3) outer_magic)) invalid_frame _
            λ named.
              Ensures-guard (IsWritten bytes) (not (b3 == outer_version)) invalid_frame _
                λ versioned.
                  Ensures-bind (λ suite. Suite.id suite ≡ b4) (IsWritten bytes) _ _
                    (Suite.from_id-Ensures b4)
                    λ suite suite_read.
                      Ensures-guard (IsWritten bytes) (not (Suite.same suite outer_suite))
                        invalid_frame _
                        λ fixed.
                          Ensures-guard (IsWritten bytes)
                            (not (b93 == 24) || not (body_len_fits body_len)) invalid_frame _
                            λ sized.
                              let (nonce_read, low, high) = sized_facts b93 body_len sized in
                              rw (nonce_read, leb-true (122 + body_len) usize_max (omega arith))
                                (Ensures-guard (IsWritten bytes)
                                  (not (length bytes == 122 + body_len)) invalid_frame _
                                  λ whole.
                                    let reached = same_byte (length bytes) (122 + body_len) whole in
                                    let tail : length bytes - 122 ≡ body_len = omega arith in
                                    let suite_fixed = fixed_suite suite fixed in
                                    let written =
                                      parsed-IsWritten reached low high
                                        (same_bytes (part 0 3) outer_magic named)
                                        (s3
                                          ∙ ap (λ (b : ℕ). b ∷ [])
                                              (same_byte b3 outer_version versioned))
                                        (s4
                                          ∙ ap (λ (b : ℕ). b ∷ [])
                                              (sym suite_read ∙ ap Suite.id suite_fixed))
                                        (s93 ∙ ap (λ (b : ℕ). b ∷ []) nonce_read) in
                                    rw
                                      (
                                        slice-eq_width 98 24 bytes (omega arith),
                                        slice-eq 122 (length bytes) bytes (omega arith)
                                            (omega arith),
                                        tail,
                                        from_parts-eq parsed.ciphertext written.0.ciphertext_valid,
                                        from_ciphertext-eq_envelope parsed written.0,
                                      )
                                      written))

-- On any bytes the parser of an envelope ends without reading out of bounds; if it accepts, the
-- envelope is valid, and the bytes are its encoding.
pub decode-IsWritten : (bytes : Bytes) → All IsByte bytes → Ensures (IsWritten bytes) (decode bytes)
decode-IsWritten bytes v = elim (Bool-cases (outside bytes)) [
  | inl refused ↦ rw (outside-decode bytes refused) tt
  | inr inside ↦
      let (lo, hi) = window_facts (length bytes) inside in
      let (b3, e3, s3) = index-eq 3 bytes (omega arith) in
      let (b4, e4, s4) = index-eq 4 bytes (omega arith) in
      let (b93, e93, s93) = index-eq 93 bytes (omega arith) in
      decode-IsWritten_window bytes v lo hi b3 b4 b93 e3 s3 e4 s4 e93 s93
]
