-- ===== src/Handshake/Verified.antt =====
-- handshake.rs: what `IdentityDhPublic::verify` lets through, and the tests of the parsers.
use mef.Prelude.{ℕ, ◌≡◌, refl, arith, Bool, true, false, not, Bytes, ◌==◌, bytes_eq, bytes_eq_sound}
use mef.Error.{MefError, Result, ok, fail_if, ◌>>◌, Ensures, Ensures-guard, invalid_frame}
use mef.Crypto.Primitives.{Primitives, IsSigning}
use mef.Keys.Identity.{parse_public, verify, from_seed, sign}
use mef.Keys.Dh.{DhPublicKey}
use mef.Handshake.Message.{
  IdentityDhPublic, verify_identity, identity_public, identity_binding_transcript,
}

pub identity-verifies :
    (p : Primitives)
    → IsSigning p
    → (seed : Bytes) (dh : DhPublicKey)
    → verify_identity p (identity_public p (from_seed p seed) dh) ≡ ok tt
unfolding verify_identity identity_public verify from_seed sign
identity-verifies p signing seed dh =
    rw (signing.key_valid seed, signing.verifies seed (identity_binding_transcript dh)) refl

-- A guard that lets a check through.
guard_passed :
    (b : Bool) (e : MefError) (rest : Result (Unit {0}))
    → fail_if (not b) e >> rest ≡ ok tt
    → b ≡ true
guard_passed true e rest h = refl
guard_passed false e rest h = cc

pub key_parses :
    (p : Primitives) (i : IdentityDhPublic)
    → verify_identity p i ≡ ok tt
    → parse_public p i.signing ≡ ok i.signing
unfolding verify_identity verify parse_public
key_parses p i verified =
    rw (guard_passed (p.is_verifying_key i.signing) invalid_frame _ verified) refl

pub parse_public-Ensures :
    (p : Primitives) (key : Bytes) → Ensures (λ parsed. parsed ≡ key) (parse_public p key)
unfolding parse_public
parse_public-Ensures p key =
    Ensures-guard (λ parsed. parsed ≡ key) (not (p.is_verifying_key key)) invalid_frame _
      λ valid. refl

pub same_byte : (b c : ℕ) → not (b == c) ≡ false → b ≡ c
same_byte b c h = ground arith

pub same_bytes : (a b : Bytes) → not (bytes_eq a b) ≡ false → a ≡ b
same_bytes a b h = ground (arith, bytes_eq_sound a b)

two_guards :
    (b c : Bool) (e f : MefError)
    → Ensures (λ _. fail_if b e >> fail_if c f ≡ ok tt) (fail_if b e >> fail_if c f)
two_guards true c e f = tt
two_guards false true e f = tt
two_guards false false e f = refl

pub verify-Ensures :
    (p : Primitives) (key message signature : Bytes)
    → Ensures (λ _. verify p key message signature ≡ ok tt) (verify p key message signature)
unfolding verify
verify-Ensures p key message signature =
    two_guards (not (p.is_verifying_key key)) (not (p.verify_strict key message signature)) _ _

pub verify_identity-Ensures :
    (p : Primitives) (i : IdentityDhPublic)
    → Ensures (λ _. verify_identity p i ≡ ok tt) (verify_identity p i)
unfolding verify_identity
verify_identity-Ensures p i =
    verify-Ensures p i.signing (identity_binding_transcript i.dh) i.signature
