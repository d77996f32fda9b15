-- ===== src/Ratchet/Persistence/Snapshot.antt =====
-- ratchet/persistence.rs: `restore_state`, and the associated data of a snapshot.
use mef.Prelude.{
  ℕ, ◌+◌, not, ◌||◌, [], ◌∷◌, ◌++◌, Bytes, length, ltb, ◌==◌, bytes_eq, from_be, codes, usize_max,
  if◌then◌else◌, checked_add, try_from, to_be, List,
}
use mef.Error.{
  Result, ok, ◌>>=◌, ◌>>◌, fail_if, ok_or, invalid_frame, invalid_length, state_rollback_detected,
}
use mef.Limits.{max_aad_len}
use mef.Wire.{index, slice, copy_at}
use mef.Crypto.Suite.{x_cha_cha20_poly1305}
use mef.Crypto.Primitives.{Primitives}
use mef.Crypto.Aead.{from_parts, open_ciphertext}
use mef.Ratchet.State.{RatchetState}
use mef.Ratchet.Persistence.Codec.{version, legacy_version, decode_state}

abbrev pub magic : Bytes
magic = codes "MRS"

abbrev pub nonce_len : ℕ
nonce_len = 24

abbrev pub header_len : ℕ
header_len = 3 + 1 + 8 + 1 + 4

-- Each label ends in a zero byte.
abbrev pub aad_label : ℕ → Bytes
aad_label v =
    if v == legacy_version
    then codes "MEF-26/ratchet-state-v1" ++ 0 ∷ []
    else codes "MEF-26/ratchet-state-v2" ++ 0 ∷ []

unfoldable pub state_aad : Bytes → ℕ → Result Bytes
state_aad context v = do
  capacity ← ok_or (checked_add usize_max (length (aad_label v)) (length context)) invalid_length
  fail_if (ltb max_aad_len capacity) invalid_length
  ok (aad_label v ++ context)

-- What `seal_state` appends.
abbrev pub snapshot_segments : ℕ → ℕ → ℕ → Bytes → Bytes → List Bytes
snapshot_segments generation nonce_size body_len nonce body =
    magic
    ∷ (version ∷ [])
    ∷ to_be 8 generation
    ∷ (nonce_size ∷ [])
    ∷ to_be 4 body_len
    ∷ nonce
    ∷ body
    ∷ []

unfoldable pub restore_state : Primitives → Bytes → Bytes → ℕ → Bytes → Result RatchetState
unfolding state_aad
restore_state p key context minimum_generation blob = do
  fail_if (ltb (length blob) (header_len + nonce_len + 16)) invalid_frame
  found_magic ← slice 0 3 blob
  fail_if (not (bytes_eq found_magic magic)) invalid_frame
  v ← index 3 blob
  fail_if (not (v == legacy_version || v == version)) invalid_frame
  generation_bytes ← copy_at 4 8 blob
  let generation = from_be generation_bytes
  fail_if (ltb generation minimum_generation) state_rollback_detected
  nonce_size ← index 12 blob
  body_len_bytes ← copy_at 13 4 blob
  body_len ← ok_or (try_from usize_max (from_be body_len_bytes)) invalid_length
  with_nonce ← ok_or (checked_add usize_max header_len nonce_size) invalid_length
  expected ← ok_or (checked_add usize_max with_nonce body_len) invalid_length
  fail_if (not (nonce_size == nonce_len) || not (expected == length blob)) invalid_frame
  nonce ← slice header_len (header_len + nonce_len) blob
  body ← slice (header_len + nonce_len) (length blob) blob
  ciphertext ← from_parts x_cha_cha20_poly1305 nonce body
  aad ← state_aad context v
  plaintext ← open_ciphertext p key ciphertext aad
  decode_state p plaintext generation v
