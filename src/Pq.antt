-- ===== src/Pq.antt =====
-- pq.rs: ML-KEM-768 keys, ciphertexts and shared secrets. The types that wrap one value of the
-- `ml-kem` crate, and the shared secret, which wraps 32 bytes, are those values here.
pub mod Kem
use mef.Prelude.{not, Bytes, length, ◌==◌, if◌then◌else◌}
use mef.Error as Error
use mef.Error.{
  Result, ok, panic, fail_if, ok_or, invalid_length, authentication_failed, randomness_unavailable,
}
use mef.Effect.{M, lift, pure, ◌>>=◌}
use mef.Crypto.Primitives.{Primitives}
use mef.Crypto.Seal.{fill_secure}
use mef.Pq.Kem.{MlKem, encapsulation_key_len, ciphertext_len}

abbrev pub MlKem768PublicKey : Type 0 → Type 0
MlKem768PublicKey E = E

abbrev pub MlKem768Ciphertext : Type 0
MlKem768Ciphertext = Bytes

abbrev pub MlKem768SharedSecret : Type 0
MlKem768SharedSecret = Bytes

pub record MlKem768KeyPair (D E : Type 0) : Type 0 where
  pub secret : D
  pub public : MlKem768PublicKey E

-- `copy_from_slice` panics on another length.
unfoldable pub shared_secret_from_slice : Bytes → Result MlKem768SharedSecret
shared_secret_from_slice bytes = if length bytes == 32 then ok bytes else panic

-- `MlKem768KeyPair::generate`.
unfoldable pub generate_key_pair : {D E : Type 0} → MlKem D E → M (Unit {0}) (MlKem768KeyPair D E)
generate_key_pair q s g =
    let (made, g') = q.try_generate_from_rng g in
    (
      Error.◌>>=◌ (ok_or made randomness_unavailable)
          λ secret. ok (record { secret = secret; public = q.encapsulation_key secret }),
      s,
      g',
    )

-- `MlKem768KeyPair::decapsulate`.
unfoldable pub decapsulate :
    {D E : Type 0}
    → MlKem D E
    → MlKem768KeyPair D E
    → MlKem768Ciphertext
    → Result MlKem768SharedSecret
unfolding shared_secret_from_slice
decapsulate q pair sent = shared_secret_from_slice (q.decapsulate pair.secret sent)

-- `MlKem768Ciphertext::from_bytes`.
unfoldable pub parse_ciphertext : Bytes → Result MlKem768Ciphertext
parse_ciphertext bytes =
    Error.◌>>=◌ (fail_if (not (length bytes == ciphertext_len)) invalid_length) λ _. ok bytes

-- `MlKem768PublicKey::from_bytes`.
unfoldable pub parse_key : {D E : Type 0} → MlKem D E → Bytes → Result (MlKem768PublicKey E)
parse_key q bytes =
    Error.◌>>=◌ (fail_if (not (length bytes == encapsulation_key_len)) invalid_length)
      λ _. ok_or (q.new bytes) authentication_failed

-- `MlKem768PublicKey::encapsulate`.
unfoldable pub encapsulate :
    {D E : Type 0}
    → Primitives
    → MlKem D E
    → MlKem768PublicKey E
    → M (Unit {0}) (MlKem768Ciphertext × MlKem768SharedSecret)
unfolding fill_secure shared_secret_from_slice
encapsulate p q key = do
  randomness ← fill_secure p 32
  let (sent, shared) = q.encapsulate_deterministic key randomness
  secret ← lift (shared_secret_from_slice shared)
  pure (sent, secret)
