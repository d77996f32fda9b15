-- ===== src/Keys/Dh.antt =====
-- keys/dh.rs. A `DhPublicKey` and a `DhSecretKey` wrap an array of 32 bytes and are that array here;
-- zeroising a secret on drop leaves no value to state.
use mef.Prelude.{not, Bytes}
use mef.Error.{Result, ok, ◌>>◌, fail_if, non_contributory_key_agreement}
use mef.Effect
use mef.Effect.{M}
use mef.Crypto.Primitives.{Primitives}
use mef.Crypto.Seal.{random_bytes}

abbrev pub DhPublicKey : Type 0
DhPublicKey = Bytes

abbrev pub DhSecretKey : Type 0
DhSecretKey = Bytes

pub record DhKeyPair : Type 0 where
  pub secret : DhSecretKey
  pub public : DhPublicKey

-- `DhSecretKey::public_key`.
unfoldable pub public_key : Primitives → DhSecretKey → DhPublicKey
public_key p secret = p.x25519_public secret

-- `DhKeyPair::from_secret`.
unfoldable pub from_secret : Primitives → DhSecretKey → DhKeyPair
unfolding public_key
from_secret p secret = record { secret = secret; public = public_key p secret }

-- `DhKeyPair::generate`.
unfoldable pub generate : Primitives → M (Unit {0}) DhKeyPair
unfolding random_bytes from_secret
generate p = Effect.◌>>=◌ (random_bytes p 32) (λ secret. Effect.pure (from_secret p secret))

-- `DhSecretKey::diffie_hellman`, which `DhKeyPair::diffie_hellman` passes on.
unfoldable pub diffie_hellman : Primitives → DhSecretKey → DhPublicKey → Result Bytes
diffie_hellman p secret peer = do
  let shared = p.x25519 secret peer
  fail_if (not (p.was_contributory shared)) non_contributory_key_agreement
  ok shared
