-- ===== src/Pq/Kem.antt =====
-- What pq.rs takes from the `ml-kem` crate. `MlKem D E` has one field for each call, over the types
-- `D` of decapsulation keys and `E` of encapsulation keys; a `Ciphertext` is an array of 1088 bytes.
use mef.Prelude.{ℕ, ◌≡◌, Option, some, Bytes, length}

abbrev pub encapsulation_key_len : ℕ
encapsulation_key_len = 1184

abbrev pub ciphertext_len : ℕ
ciphertext_len = 1088

pub record MlKem (D E : Type 0) : Type 0 where
  -- After k requests to the system's generator, the key that `DecapsulationKey::try_generate_from_rng`
  -- makes, and the number of requests made then.
  pub try_generate_from_rng : ℕ → Option D × ℕ
  pub encapsulation_key : D → E
  -- `EncapsulationKey::to_bytes`, and `EncapsulationKey::new` on an array of the length.
  pub to_bytes : E → Bytes
  pub new : Bytes → Option E
  -- `encapsulate_deterministic(&randomness)`: the ciphertext and the shared key.
  pub encapsulate_deterministic : E → Bytes → Bytes × Bytes
  pub decapsulate : D → Bytes → Bytes

-- The lengths of FIPS 203; a key has one encoding, which `new` takes back; and decapsulation finds
-- the shared key. FIPS 203 lets it fail with a probability below 2^-164, which is left aside.
pub record IsMlKem {D E : Type 0} (q : MlKem D E) : Type 0 where
  pub length-to_bytes : (key : E) → length (q.to_bytes key) ≡ encapsulation_key_len
  pub new-to_bytes : (key : E) → q.new (q.to_bytes key) ≡ some key
  pub to_bytes-new : (bytes : Bytes) (key : E) → q.new bytes ≡ some key → q.to_bytes key ≡ bytes
  pub length-ciphertext :
      (key : E) (randomness : Bytes)
      → length (q.encapsulate_deterministic key randomness).0 ≡ ciphertext_len
  pub length-shared :
      (key : E) (randomness : Bytes) → length (q.encapsulate_deterministic key randomness).1 ≡ 32
  pub length-decapsulate : (secret : D) (sent : Bytes) → length (q.decapsulate secret sent) ≡ 32
  pub decapsulates :
      (secret : D) (randomness : Bytes)
      → q.decapsulate secret (q.encapsulate_deterministic (q.encapsulation_key secret) randomness).0
        ≡ (q.encapsulate_deterministic (q.encapsulation_key secret) randomness).1
