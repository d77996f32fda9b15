-- ===== src/Keys/Prekey.antt =====
-- keys/prekey.rs, and `sign_prekey` and `generate` of keys/identity.rs.
use mef.Prelude.{arith, ℕ, ◌≡◌, [], ◌∷◌, ◌++◌, Bytes, ltb, to_be, codes}
use mef.Error.{Result, ◌>>◌, fail_if, authentication_failed}
use mef.Effect
use mef.Effect.{M}
use mef.Limits.{protocol_id}
use mef.Crypto.Primitives.{Primitives, IsSigning}
use mef.Crypto.Kdf.{blake3_id}
use mef.Crypto.Seal.{random_bytes}
use mef.Keys.Dh.{DhPublicKey}
use mef.Keys.Identity.{IdentityPublicKey, IdentityKeyPair, verify, from_seed, sign}

-- `IdentityKeyPair::generate`.
unfoldable pub generate_identity : Primitives → M (Unit {0}) IdentityKeyPair
generate_identity p = Effect.◌>>=◌ (random_bytes p 32) (λ seed. Effect.pure (from_seed p seed))

unfoldable pub transcript : ℕ → DhPublicKey → ℕ → Bytes
transcript key_id prekey expires_at =
    protocol_id
    ++ (0 ∷ codes "signed-prekey-v1" ++ (to_be 4 key_id ++ (prekey ++ to_be 8 expires_at)))

unfoldable pub sign_prekey : Primitives → IdentityKeyPair → ℕ → DhPublicKey → ℕ → Bytes
unfolding transcript
sign_prekey p pair key_id prekey expires_at = sign p pair (transcript key_id prekey expires_at)

pub record SignedPrekey : Type 0 where
  pub key_id : ℕ
  pub public : DhPublicKey
  pub expires_at_unix : ℕ
  pub signature : Bytes

-- `SignedPrekey::issue`.
unfoldable pub issue : Primitives → IdentityKeyPair → ℕ → DhPublicKey → ℕ → SignedPrekey
unfolding sign_prekey
issue p identity key_id public expires_at = record {
  key_id = key_id;
  public = public;
  expires_at_unix = expires_at;
  signature = sign_prekey p identity key_id public expires_at;
}

-- `SignedPrekey::verify`.
unfoldable pub verify_prekey : Primitives → SignedPrekey → IdentityPublicKey → ℕ → Result (Unit {0})
unfolding transcript
verify_prekey p prekey identity now = do
  fail_if (ltb prekey.expires_at_unix now) authentication_failed
  verify p identity (transcript prekey.key_id prekey.public prekey.expires_at_unix) prekey.signature

unfoldable pub identity_fingerprint : Primitives → IdentityPublicKey → Result Bytes
identity_fingerprint p identity = blake3_id p (codes "identity-fingerprint-v1") (identity ∷ [])

-- What verifying an issued prekey says at a time.
abbrev pub verdict : ℕ → ℕ → Result (Unit {0})
verdict expires_at now = fail_if (ltb expires_at now) authentication_failed

-- A prekey that an identity issued verifies under the identity's key exactly until its expiry, the
-- last second included; signatures verify under the key of the seed that made them.
pub verify_prekey-issue :
    (p : Primitives) (seed : Bytes) (key_id : ℕ) (public : DhPublicKey) (expires_at now : ℕ)
    → IsSigning p
    → verify_prekey p
        (issue p (from_seed p seed) key_id public expires_at)
        (from_seed p seed).public
        now
      ≡ verdict expires_at now
unfolding verify_prekey issue sign_prekey sign from_seed verify
verify_prekey-issue p seed key_id public expires_at now signing =
    rw (signing.key_valid seed, signing.verifies seed (transcript key_id public expires_at))
      (ground arith)
