-- ===== src/Crypto/Aead.antt =====
-- crypto/aead.rs: `Ciphertext`, `seal_with_nonce` and `open`, which is `open_ciphertext` here. The
-- four arms of each `match suite` differ in the cipher alone, which is the first argument of the
-- primitive.
use mef.Prelude.{ℕ, ◌-◌, Bool, not, ◌||◌, ◌&&◌, Bytes, length, ltb, leb, ◌==◌}
use mef.Error.{Result, ok, ◌>>=◌, ◌>>◌, fail_if, ok_or, invalid_length, authentication_failed}
use mef.Limits.{max_ciphertext_len, max_aad_len}
use mef.Crypto.Suite.{AeadSuite, nonce_len}
use mef.Crypto.Primitives.{Primitives}

abbrev pub aead_tag_len : ℕ
aead_tag_len = 16

pub record Ciphertext : Type 0 where
  pub suite : AeadSuite
  pub nonce : Bytes
  pub body : Bytes

-- `(AEAD_TAG_LEN..=MAX_CIPHERTEXT_LEN).contains(&n)`.
abbrev pub body_len_fits : ℕ → Bool
body_len_fits n = leb aead_tag_len n && leb n max_ciphertext_len

unfoldable pub from_parts : AeadSuite → Bytes → Bytes → Result Ciphertext
from_parts suite nonce body = do
  fail_if (not (length nonce == nonce_len suite) || not (body_len_fits (length body)))
      invalid_length
  ok (record { suite = suite; nonce = nonce; body = body })

unfoldable pub validate_inputs : Bytes → Bytes → Result (Unit {0})
validate_inputs aad plaintext =
    fail_if
      (ltb max_aad_len (length aad) || ltb (max_ciphertext_len - aead_tag_len) (length plaintext))
      invalid_length

unfoldable pub seal_with_nonce :
    Primitives → Bytes → AeadSuite → Bytes → Bytes → Bytes → Result Ciphertext
unfolding validate_inputs from_parts
seal_with_nonce p key suite nonce aad plaintext = do
  validate_inputs aad plaintext
  fail_if (not (length nonce == nonce_len suite)) invalid_length
  fail_if (not (p.new_from_slice suite key)) invalid_length
  fail_if (not (p.nonce_try_from suite nonce)) invalid_length
  body ← ok_or (p.encrypt_in_place suite key nonce aad plaintext) authentication_failed
  from_parts suite nonce body

unfoldable pub open_ciphertext : Primitives → Bytes → Ciphertext → Bytes → Result Bytes
open_ciphertext p key ciphertext aad = do
  fail_if (ltb max_aad_len (length aad)) invalid_length
  fail_if (not (p.new_from_slice ciphertext.suite key)) invalid_length
  fail_if (not (p.nonce_try_from ciphertext.suite ciphertext.nonce)) invalid_length
  ok_or (p.decrypt_in_place ciphertext.suite key ciphertext.nonce aad ciphertext.body)
      authentication_failed
