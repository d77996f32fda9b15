-- ===== src/Tests/Kem.antt =====
-- Concrete functions that meet what is assumed of ML-KEM. There are two key pairs, and a ciphertext
-- shows its secret.
use mef.Prelude.{
  ◌+◌, ◌≡◌, refl, sym, ap, ◌∙◌, arith, Bool, true, false, not, Option, none, some, ◌∷◌, ◌++◌, Bytes,
  length, replicate, length-append, append_assoc, bytes_eq, bytes_eq_refl, bytes_eq_sound,
  if◌then◌else◌,
}
use mef.Wire.Laws.{take-of_append}
use mef.Pq.Kem.{MlKem, IsMlKem}
use mef.Tests.Toy.{pad, length-pad}

unfoldable pub key_bytes : Bool → Bytes
key_bytes true = 1 ∷ replicate 1183 0
key_bytes false = 0 ∷ replicate 1183 0

abbrev pub secret_of : Bool → Bytes → Bytes
secret_of key randomness = pad 32 ((if key then 1 else 0) ∷ randomness)

unfoldable pub key_of : Bytes → Option Bool
key_of bytes =
    if bytes_eq bytes (key_bytes true)
    then some true
    else if bytes_eq bytes (key_bytes false)
    then some false
    else none

abbrev pub toy_kem : MlKem Bool Bool
toy_kem = record {
  try_generate_from_rng = λ k. (some true, k + 1);
  encapsulation_key = not;
  to_bytes = key_bytes;
  new = key_of;
  encapsulate_deterministic =
      λ key randomness. (secret_of key randomness ++ replicate 1056 0, secret_of key randomness);
  decapsulate = λ secret sent. pad 32 sent;
}

key_of-key_bytes : (key : Bool) → key_of (key_bytes key) ≡ some key
unfolding key_of key_bytes bytes_eq
key_of-key_bytes true = rw (bytes_eq_refl (replicate 1183 0)) refl
key_of-key_bytes false = refl

key_bytes-key_of : (bytes : Bytes) (key : Bool) → key_of bytes ≡ some key → key_bytes key ≡ bytes
unfolding key_of
key_bytes-key_of bytes key h =
    ground (arith, bytes_eq_sound bytes (key_bytes true), bytes_eq_sound bytes (key_bytes false))

length-key_bytes : (key : Bool) → length (key_bytes key) ≡ 1184
unfolding key_bytes
length-key_bytes true = refl
length-key_bytes false = refl

pad-append : (s rest : Bytes) → length s ≡ 32 → pad 32 (s ++ rest) ≡ s
pad-append s rest h = sym (
    take-of_append 32 s (rest ++ replicate 32 0) ((s ++ rest) ++ replicate 32 0)
      (sym (append_assoc s rest (replicate 32 0))) h)

pub toy_kem-IsMlKem : IsMlKem toy_kem
toy_kem-IsMlKem = record {
  length-to_bytes = length-key_bytes;
  new-to_bytes = key_of-key_bytes;
  to_bytes-new = key_bytes-key_of;
  length-ciphertext = λ key randomness.
      length-append (secret_of key randomness) (replicate 1056 0)
      ∙ ap (λ n. n + 1056) (length-pad 32 ((if key then 1 else 0) ∷ randomness));
  length-shared = λ key randomness. length-pad 32 ((if key then 1 else 0) ∷ randomness);
  length-decapsulate = λ secret sent. length-pad 32 sent;
  decapsulates = λ secret randomness.
      pad-append (secret_of (not secret) randomness) (replicate 1056 0)
        (length-pad 32 ((if not secret then 1 else 0) ∷ randomness));
}
