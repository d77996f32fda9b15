-- ===== src/Crypto/Primitives.antt =====
-- What the crate takes from others: the operating system's generator, the AEAD ciphers, HKDF,
-- BLAKE3, X25519 and Ed25519. `Primitives` has one field for each call that the sources make, and
-- the records below it state what the documentation of those crates promises.
use mef.Prelude.{ℕ, ◌+◌, ◌≤◌, ◌≡◌, Bool, true, Option, some, Bytes, IsByte, All, length}
use mef.Limits.{max_ciphertext_len, max_aad_len}
use mef.Crypto.Suite.{AeadSuite, nonce_len}

pub record Primitives : Type 0 where
  -- The answer to the k-th request for n bytes: `SysRng.try_fill_bytes`.
  pub try_fill_bytes : ℕ → ℕ → Option Bytes
  -- `Cipher::new_from_slice(key)` and `Nonce::try_from(nonce)` succeed.
  pub new_from_slice : AeadSuite → Bytes → Bool
  pub nonce_try_from : AeadSuite → Bytes → Bool
  -- Key, nonce, associated data and buffer; the buffer afterwards.
  pub encrypt_in_place : AeadSuite → Bytes → Bytes → Bytes → Bytes → Option Bytes
  pub decrypt_in_place : AeadSuite → Bytes → Bytes → Bytes → Bytes → Option Bytes
  -- `Hkdf::<Sha256>::new(Some(salt), input)`, then `expand(info, 32 bytes)`.
  pub hkdf_expand : Bytes → Bytes → Bytes → Option Bytes
  -- The digest of everything that the hasher was fed.
  pub blake3_digest : Bytes → Bytes
  -- `PublicKey::from(&secret)`, `secret.diffie_hellman(&peer)`, `shared.was_contributory()`.
  pub x25519_public : Bytes → Bytes
  pub x25519 : Bytes → Bytes → Bytes
  pub was_contributory : Bytes → Bool
  -- `VerifyingKey::from_bytes(&key)` succeeds; `verify_strict(message, signature)` does.
  pub is_verifying_key : Bytes → Bool
  pub verify_strict : Bytes → Bytes → Bytes → Bool
  -- For the signing key of a seed: its verifying key, and the signature of a message.
  pub verifying_key : Bytes → Bytes
  pub ed25519_sign : Bytes → Bytes → Bytes

-- The ciphers take the key and nonce lengths of their suite, add a tag of 16 bytes within the
-- limits of the crate, and decrypt what they encrypted.
pub record IsAead (p : Primitives) : Type 0 where
  pub key_accepted :
      (suite : AeadSuite) (key : Bytes) → length key ≡ 32 → p.new_from_slice suite key ≡ true
  pub nonce_accepted :
      (suite : AeadSuite) (nonce : Bytes)
      → length nonce ≡ nonce_len suite
      → p.nonce_try_from suite nonce ≡ true
  pub encrypts :
      (suite : AeadSuite) (key nonce aad body : Bytes)
      → length key ≡ 32
      → length nonce ≡ nonce_len suite
      → length aad ≤ max_aad_len
      → length body + 16 ≤ max_ciphertext_len
      → (sealed : Bytes) × (p.encrypt_in_place suite key nonce aad body ≡ some sealed)
        × (length sealed ≡ length body + 16)
  pub decrypts :
      (suite : AeadSuite) (key nonce aad body sealed : Bytes)
      → p.encrypt_in_place suite key nonce aad body ≡ some sealed
      → p.decrypt_in_place suite key nonce aad sealed ≡ some body

-- A buffer of bytes is decrypted to bytes, which are numbers below 256 here.
pub record HasBytes (p : Primitives) : Type 0 where
  pub decrypted :
      (suite : AeadSuite) (key nonce aad sealed body : Bytes)
      → All IsByte sealed
      → p.decrypt_in_place suite key nonce aad sealed ≡ some body
      → All IsByte body

-- 32 bytes are within the limit of `expand`.
pub record IsKdf (p : Primitives) : Type 0 where
  pub expands :
      (salt input info : Bytes)
      → (key : Bytes) × (p.hkdf_expand salt input info ≡ some key) × (length key ≡ 32)

-- A digest of BLAKE3 has 32 bytes.
pub record IsHash (p : Primitives) : Type 0 where
  pub length-digest : (fed : Bytes) → length (p.blake3_digest fed) ≡ 32

-- The agreement commutes, on keys of 32 bytes.
pub record IsDh (p : Primitives) : Type 0 where
  pub length-public : (secret : Bytes) → length (p.x25519_public secret) ≡ 32
  pub length-x25519 : (secret peer : Bytes) → length (p.x25519 secret peer) ≡ 32
  pub agrees : (a b : Bytes) → p.x25519 a (p.x25519_public b) ≡ p.x25519 b (p.x25519_public a)

-- A signature verifies under the key of the seed that made it.
pub record IsSigning (p : Primitives) : Type 0 where
  pub length-verifying_key : (seed : Bytes) → length (p.verifying_key seed) ≡ 32
  pub length-sign : (seed message : Bytes) → length (p.ed25519_sign seed message) ≡ 64
  pub key_valid : (seed : Bytes) → p.is_verifying_key (p.verifying_key seed) ≡ true
  pub verifies :
      (seed message : Bytes)
      → p.verify_strict (p.verifying_key seed) message (p.ed25519_sign seed message) ≡ true

-- The k-th request for random bytes, which asks for `n`, is granted.
abbrev pub Granted : Primitives → ℕ → ℕ → Type 0
Granted p k n = (bytes : Bytes) × (p.try_fill_bytes k n ≡ some bytes) × (length bytes ≡ n)
