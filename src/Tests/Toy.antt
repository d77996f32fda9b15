-- ===== src/Tests/Toy.antt =====
-- Concrete functions that meet what is assumed of the primitives. They hide nothing: a ciphertext
-- is the plaintext and a tag made of the key.
use mef.Prelude.{
  ℕ, ◌+◌, ◌-◌, ◌%◌, ◌≡◌, refl, ap, ◌∙◌, arith, Bool, true, not, Option, none, some, [], ◌∷◌, ◌++◌,
  Bytes, length, take, drop, replicate, length-take, length-append, length-replicate, take-append,
  drop-append, ◌==◌, ==_refl, bytes_eq, bytes_eq_refl, if◌then◌else◌, ltb, lt_of_ltb, All, IsByte,
  ◌&&◌, All-take, Bool-cases, inl, inr,
}
use mef.Wire.{sum}
use mef.Crypto.Suite.{nonce_len}
use mef.Crypto.Primitives.{Primitives, IsAead, HasBytes, IsKdf, IsHash, IsDh, IsSigning}

abbrev pub are_bytes : Bytes → Bool
are_bytes [] = true
are_bytes (b ∷ bs) = ltb b 256 && are_bytes bs

pub All-are_bytes : (bs : Bytes) → are_bytes bs ≡ true → All IsByte bs
All-are_bytes [] h = tt
All-are_bytes (b ∷ bs) h =
    let first : ltb b 256 ≡ true = ground arith in
    let others : are_bytes bs ≡ true = ground arith in
    (lt_of_ltb b 256 first, All-are_bytes bs others)

-- The first n bytes, filled up with zeros.
abbrev pub pad : ℕ → Bytes → Bytes
pad n xs = take n (xs ++ replicate n 0)

pub length-pad : (n : ℕ) (xs : Bytes) → length (pad n xs) ≡ n
length-pad n xs =
    length-take n (xs ++ replicate n 0)
      (omega (arith, length-append xs (replicate n 0), length-replicate {A = ℕ} n 0))

unfoldable pub unseal : Bytes → Bytes → Option Bytes
unseal key sealed =
    let n = length sealed - 16 in
    if bytes_eq (drop n sealed) (pad 16 key) then some (take n sealed) else none

abbrev pub toy : Primitives
toy = record {
  try_fill_bytes = λ k n. some (replicate n (k + 1));
  new_from_slice = λ suite key. length key == 32;
  nonce_try_from = λ suite nonce. length nonce == nonce_len suite;
  encrypt_in_place = λ suite key nonce aad body. some (body ++ pad 16 key);
  decrypt_in_place = λ suite key nonce aad sealed. unseal key sealed;
  hkdf_expand = λ salt input info. some (pad 32 (input ++ salt));
  blake3_digest = λ fed. pad 32 fed;
  x25519_public = λ secret. pad 32 secret;
  x25519 = λ secret peer. replicate 32 ((sum (pad 32 secret) + sum peer) % 256);
  was_contributory = λ shared. not (bytes_eq shared (replicate 32 0));
  is_verifying_key = λ key. length key == 32;
  verify_strict = λ key message signature. bytes_eq signature (pad 64 (key ++ message));
  verifying_key = λ seed. pad 32 seed;
  ed25519_sign = λ seed message. pad 64 (pad 32 seed ++ message);
}

-- A generator that has nothing to give.
abbrev pub dry : Primitives
dry = record toy { try_fill_bytes = λ k n. none }

unseal-append : (key body : Bytes) → unseal key (body ++ pad 16 key) ≡ some body
unfolding unseal
unseal-append key body =
    let n : length (body ++ pad 16 key) - 16 ≡ length body =
      omega (arith, length-append body (pad 16 key), length-pad 16 key) in
    rw (n, drop-append body (pad 16 key), bytes_eq_refl (pad 16 key), take-append body (pad 16 key))
      refl

pub toy-IsAead : IsAead toy
toy-IsAead = record {
  key_accepted = λ suite key h. rw h refl;
  nonce_accepted = λ suite nonce h. rw (h, ==_refl (nonce_len suite)) refl;
  encrypts = λ suite key nonce aad body k n a b. (
    body ++ pad 16 key,
    refl,
    length-append body (pad 16 key) ∙ ap (λ t. length body + t) (length-pad 16 key),
  );
  decrypts = λ suite key nonce aad body sealed h.
      let same : body ++ pad 16 key ≡ sealed = cc in rw (← same) (unseal-append key body);
}

unseal-bytes :
    (key sealed body : Bytes) → All IsByte sealed → unseal key sealed ≡ some body → All IsByte body
unfolding unseal
unseal-bytes key sealed body v opened =
    let n = length sealed - 16 in
    elim (Bool-cases (bytes_eq (drop n sealed) (pad 16 key))) [
      | inl intact ↦
          let same : take n sealed ≡ body = let now = rw intact at opened in cc in
          rw (← same) (All-take IsByte n sealed v)
      | inr broken ↦ let now = rw broken at opened in cc
    ]

pub toy-HasBytes : HasBytes toy
toy-HasBytes = record {
  decrypted = λ suite key nonce aad sealed body v opened. unseal-bytes key sealed body v opened;
}

pub toy-IsKdf : IsKdf toy
toy-IsKdf = record {
  expands = λ salt input info. (pad 32 (input ++ salt), refl, length-pad 32 (input ++ salt));
}

pub toy-IsHash : IsHash toy
toy-IsHash = record { length-digest = λ fed. length-pad 32 fed }

pub toy-IsDh : IsDh toy
toy-IsDh = record {
  length-public = λ secret. length-pad 32 secret;
  length-x25519 = λ secret peer. refl;
  agrees = λ a b. ap (λ (n : ℕ). replicate 32 (n % 256)) (omega arith);
}

pub toy-IsSigning : IsSigning toy
toy-IsSigning = record {
  length-verifying_key = λ seed. length-pad 32 seed;
  length-sign = λ seed message. length-pad 64 (pad 32 seed ++ message);
  key_valid = λ seed. rw (length-pad 32 seed) refl;
  verifies = λ seed message. bytes_eq_refl (pad 64 (pad 32 seed ++ message));
}
