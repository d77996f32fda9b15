-- ===== src/Crypto/Seal.antt =====
-- crypto/random.rs, and `seal` of crypto/aead.rs, which draws its nonce.
pub mod Opens
use mef.Prelude.{ℕ, ◌+◌, Bytes}
use mef.Error.{ok_or, randomness_unavailable}
use mef.Effect.{M, lift, ◌>>=◌, ◌>>◌}
use mef.Crypto.Suite.{AeadSuite, nonce_len}
use mef.Crypto.Primitives.{Primitives}
use mef.Crypto.Aead.{Ciphertext, validate_inputs, seal_with_nonce}

-- A buffer of `n` bytes, filled; each request counts, also one that fails.
unfoldable pub fill_secure : Primitives → ℕ → M (Unit {0}) Bytes
fill_secure p n s g = (ok_or (p.try_fill_bytes g n) randomness_unavailable, s, g + 1)

-- `random_bytes::<n>`.
unfoldable pub random_bytes : Primitives → ℕ → M (Unit {0}) Bytes
unfolding fill_secure
random_bytes p n = fill_secure p n

unfoldable pub seal : Primitives → Bytes → AeadSuite → Bytes → Bytes → M (Unit {0}) Ciphertext
unfolding fill_secure
seal p key suite aad plaintext = do
  lift (validate_inputs aad plaintext)
  nonce ← fill_secure p (nonce_len suite)
  lift (seal_with_nonce p key suite nonce aad plaintext)
