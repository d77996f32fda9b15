-- ===== src/Frame/Seal/Opens.antt =====
-- frame/wire.rs: `seal` of a frame followed by `open`, at one key.
use mef.Prelude.{ℕ, ◌+◌, ◌≤◌, ◌≡◌, refl, ◌∙◌, arith, Bytes, length, leb-true, usize_max, ap, sym}
use mef.Error.{ok}
use mef.Limits.{max_ciphertext_len}
use mef.Crypto.Suite.{AeadSuite, nonce_len}
use mef.Crypto.Primitives.{Primitives, IsAead, Granted}
use mef.Crypto.Aead.{Ciphertext, aead_tag_len}
use mef.Crypto.Seal.Opens.{Seals, seal-Seals}
use mef.Frame.Header.{FrameHeader}
use mef.Frame.Format.{InnerFrame, open_frame, frame_aad}
use mef.Frame.Seal.{seal_frame}
use mef.Frame.Valid.{
  IsHeader, IsCiphertext, IsFrame, aad, length-aad, encode_aad-eq, from_ciphertext-eq,
}

module _ (p : Primitives) (aead : IsAead p) (key : Bytes) (key_len : length key ≡ 32) where
  -- What was sealed is a checked ciphertext.
  pub Seals-IsCiphertext :
      (suite : AeadSuite) (associated plaintext : Bytes) (c : Ciphertext)
      → Seals p aead key key_len suite associated plaintext c
      → length plaintext + aead_tag_len ≤ max_ciphertext_len
      → IsCiphertext c
  Seals-IsCiphertext suite associated plaintext c s fits = record {
    nonce_fits = s.nonce_fits ∙ ap nonce_len (sym s.suite_kept);
    body_low = omega (arith, s.body_fits);
    body_high = omega (arith, s.body_fits);
  }

  pub record SealsFrame (suite : AeadSuite) (h : FrameHeader) (plaintext : Bytes) (f : InnerFrame)
      : Type 0 where
    pub header_kept : f.header ≡ h
    pub suite_kept : f.ciphertext.suite ≡ suite
    pub valid : IsFrame f
    pub opens : open_frame p f key ≡ ok plaintext

  -- Sealing a frame under a key of 32 bytes succeeds for a header of the right widths and a
  -- plaintext that leaves room for the tag, when the AEAD decrypts what it encrypts and the request
  -- for the nonce is granted: the frame is valid, carries the header and the suite, and opens under
  -- the key to the plaintext.
  pub seal_frame-SealsFrame :
      (suite : AeadSuite) (h : FrameHeader) (plaintext : Bytes) (g : ℕ)
      → Granted p g (nonce_len suite)
      → IsHeader h
      → length plaintext + aead_tag_len ≤ max_ciphertext_len
      → (f : InnerFrame) × (seal_frame p key suite h plaintext tt g ≡ (ok f, tt, g + 1))
        × SealsFrame suite h plaintext f
  unfolding seal_frame open_frame frame_aad
  seal_frame-SealsFrame suite h plaintext g granted v fits =
      let n = length plaintext + aead_tag_len in
      let whole = encode_aad-eq suite h n v (omega arith) in
      let size = length-aad suite h n v in
      let (c, made, s) =
        seal-Seals p aead key key_len suite (aad suite h n) plaintext g granted
          (omega (arith, size)) fits in
      let cipher = Seals-IsCiphertext suite (aad suite h n) plaintext c s fits in
      (
        record { header = h; ciphertext = c },
        rw (leb-true n usize_max (omega arith), whole, made, from_ciphertext-eq h c v cipher) refl,
        record {
          header_kept = refl;
          suite_kept = s.suite_kept;
          valid = record { header_valid = v; ciphertext_valid = cipher };
          opens = rw (s.suite_kept, s.body_fits, whole) s.opens;
        },
      )
