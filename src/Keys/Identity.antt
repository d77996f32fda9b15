-- ===== src/Keys/Identity.antt =====
-- keys/identity.rs. An `IdentityPublicKey` wraps 32 bytes and is those bytes here; a signing key is
-- its seed.
use mef.Prelude.{not, Bytes}
use mef.Error.{Result, ok, ◌>>◌, fail_if, invalid_frame, authentication_failed}
use mef.Crypto.Primitives.{Primitives}

abbrev pub IdentityPublicKey : Type 0
IdentityPublicKey = Bytes

pub record IdentityKeyPair : Type 0 where
  pub signing : Bytes
  pub public : IdentityPublicKey

-- `IdentityPublicKey::from_bytes`.
unfoldable pub parse_public : Primitives → Bytes → Result IdentityPublicKey
parse_public p bytes = do fail_if (not (p.is_verifying_key bytes)) invalid_frame; ok bytes

unfoldable pub verify : Primitives → IdentityPublicKey → Bytes → Bytes → Result (Unit {0})
verify p key message signature = do
  fail_if (not (p.is_verifying_key key)) invalid_frame
  fail_if (not (p.verify_strict key message signature)) authentication_failed

unfoldable pub from_seed : Primitives → Bytes → IdentityKeyPair
from_seed p seed = record { signing = seed; public = p.verifying_key seed }

unfoldable pub sign : Primitives → IdentityKeyPair → Bytes → Bytes
sign p pair message = p.ed25519_sign pair.signing message
