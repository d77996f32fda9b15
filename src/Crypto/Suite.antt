-- ===== src/Crypto/Suite.antt =====
-- crypto/aead.rs: `AeadSuite`.
use mef.Prelude.{ℕ, ◌≡◌, refl, arith, ◌==◌, if◌then◌else◌, Bool, true}
use mef.Error.{Ensures, Result, ok, err, unsupported_suite}

pub data AeadSuite : Type 0 where
  aes256_gcm aes256_gcm_siv cha_cha20_poly1305 x_cha_cha20_poly1305 : AeadSuite

unfoldable pub from_id : ℕ → Result AeadSuite
from_id value =
    if value == 1
    then ok aes256_gcm
    else if value == 2
    then ok aes256_gcm_siv
    else if value == 3
    then ok cha_cha20_poly1305
    else if value == 4
    then ok x_cha_cha20_poly1305
    else err unsupported_suite

unfoldable pub id : AeadSuite → ℕ
id aes256_gcm = 1
id aes256_gcm_siv = 2
id cha_cha20_poly1305 = 3
id x_cha_cha20_poly1305 = 4

unfoldable pub nonce_len : AeadSuite → ℕ
nonce_len x_cha_cha20_poly1305 = 24
nonce_len _ = 12

-- `==` on suites, which is derived.
unfoldable pub same : AeadSuite → AeadSuite → Bool
unfolding id
same a b = id a == id b

pub from_id-id : (s : AeadSuite) → from_id (id s) ≡ ok s
unfolding from_id id
from_id-id aes256_gcm = refl
from_id-id _ = refl

pub id-from_id : (v : ℕ) (s : AeadSuite) → from_id v ≡ ok s → id s ≡ v
unfolding from_id id
id-from_id v s h = ground arith

pub from_id-Ensures : (v : ℕ) → Ensures (λ s. id s ≡ v) (from_id v)
unfolding from_id id
from_id-Ensures v = ground arith

pub same_sound : (a b : AeadSuite) → same a b ≡ true → a ≡ b
unfolding same
same_sound a b h = ground arith

pub same_refl : (a : AeadSuite) → same a a ≡ true
unfolding same
same_refl aes256_gcm = refl
same_refl _ = refl
