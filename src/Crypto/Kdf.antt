-- ===== src/Crypto/Kdf.antt =====
-- crypto/kdf.rs: labelled key derivation and identifiers. `ct_eq` is `bytes_eq`: that it takes
-- constant time is not modelled.
use mef.Prelude.{
  Bool, false, ◌||◌, List, [], ◌∷◌, ◌++◌, Bytes, length, ltb, ◌==◌, to_be, codes, u64_max, try_from,
}
use mef.Error.{Result, ok, ◌>>=◌, ◌>>◌, fail_if, ok_or, invalid_length, key_derivation_failed}
use mef.Limits.{protocol_id, max_ciphertext_len}
use mef.Crypto.Primitives.{Primitives}

unfoldable pub domain_label : Bytes → Bytes → Bytes
domain_label kind label = protocol_id ++ (0 ∷ kind ++ 0 ∷ label)

-- `label.is_empty() || label.len() > u8::MAX`.
abbrev pub label_invalid : Bytes → Bool
label_invalid label = length label == 0 || ltb 255 (length label)

unfoldable pub derive_secret : Primitives → Bytes → Bytes → Bytes → Result Bytes
derive_secret p salt label input = do
  fail_if (label_invalid label || ltb max_ciphertext_len (length input)) invalid_length
  ok_or (p.hkdf_expand salt input (domain_label (codes "kdf") label)) key_derivation_failed

unfoldable pub derive_aead_key : Primitives → Bytes → Bytes → Bytes → Result Bytes
unfolding derive_secret
derive_aead_key p salt label input = do secret ← derive_secret p salt label input; ok secret

-- `parts.iter().any(|part| part.len() > MAX_CIPHERTEXT_LEN)`.
unfoldable pub any_oversized : List Bytes → Bool
any_oversized [] = false
any_oversized (part ∷ parts) = ltb max_ciphertext_len (length part) || any_oversized parts

-- What the loop over the parts feeds the hasher, after `fed`.
unfoldable pub feed_parts : Bytes → List Bytes → Result Bytes
feed_parts fed [] = ok fed
feed_parts fed (part ∷ parts) = do
  len ← ok_or (try_from u64_max (length part)) invalid_length
  feed_parts (fed ++ (to_be 8 len ++ part)) parts

abbrev pub id_prefix : Bytes → Bytes
id_prefix label = protocol_id ++ (0 ∷ codes "blake3-id" ++ 0 ∷ label)

unfoldable pub blake3_id : Primitives → Bytes → List Bytes → Result Bytes
unfolding any_oversized feed_parts
blake3_id p label parts = do
  fail_if (label_invalid label || any_oversized parts) invalid_length
  fed ← feed_parts (id_prefix label) parts
  ok (p.blake3_digest fed)
