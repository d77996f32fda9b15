-- ===== src/Crypto/Seal/Opens.antt =====
-- crypto/aead.rs: `seal` followed by `open`, at one key.
use mef.Prelude.{ℕ, ◌+◌, ◌≤◌, ◌≡◌, refl, arith, Bytes, length}
use mef.Error.{ok}
use mef.Limits.{max_aad_len, max_ciphertext_len}
use mef.Crypto.Suite.{AeadSuite, nonce_len}
use mef.Crypto.Primitives.{Primitives, IsAead, Granted}
use mef.Crypto.Aead.{
  Ciphertext, aead_tag_len, seal_with_nonce, validate_inputs, from_parts, open_ciphertext,
}
use mef.Crypto.Seal.{fill_secure, seal}

module _ (p : Primitives) (aead : IsAead p) (key : Bytes) (key_len : length key ≡ 32) where
  -- A ciphertext of the plaintext's length and the tag, which opens to the plaintext.
  pub record Seals (suite : AeadSuite) (aad plaintext : Bytes) (c : Ciphertext) : Type 0 where
    pub suite_kept : c.suite ≡ suite
    pub nonce_fits : length c.nonce ≡ nonce_len suite
    pub body_fits : length c.body ≡ length plaintext + aead_tag_len
    pub opens : open_ciphertext p key c aad ≡ ok plaintext

  pub seal-Seals :
      (suite : AeadSuite) (aad plaintext : Bytes) (g : ℕ)
      → Granted p g (nonce_len suite)
      → length aad ≤ max_aad_len
      → length plaintext + aead_tag_len ≤ max_ciphertext_len
      → (c : Ciphertext) × (seal p key suite aad plaintext tt g ≡ (ok c, tt, g + 1))
        × Seals suite aad plaintext c
  unfolding seal fill_secure seal_with_nonce validate_inputs from_parts open_ciphertext
  seal-Seals suite aad plaintext g (nonce, filled, size) small fits =
      let (sealed, encrypted, sealed_len) =
        aead.encrypts suite key nonce aad plaintext key_len size small fits in
      let accepted = aead.key_accepted suite key key_len in
      let accepted' = aead.nonce_accepted suite nonce size in
      let decrypted = aead.decrypts suite key nonce aad plaintext sealed encrypted in
      (
        record { suite = suite; nonce = nonce; body = sealed },
        ground (arith),
        record {
          suite_kept = refl;
          nonce_fits = size;
          body_fits = sealed_len;
          opens = ground (arith);
        },
      )
