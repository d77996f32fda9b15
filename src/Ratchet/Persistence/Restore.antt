-- ===== src/Ratchet/Persistence/Restore.antt =====
-- ratchet/persistence.rs: `restore_state` on the bytes that `seal_state` lays out.
use mef.Prelude.{
  ℕ, ◌+◌, ◌≤◌, ◌<◌, ◌≡◌, refl, ap, ◌∙◌, List, [], ◌++◌, arith, Bytes, length, take, to_be,
  from_be-to_be, length-to_be, leb-true, ltb-false, ltb-true, ==_refl, bytes_eq_refl, u64_max,
  usize_max,
}
use mef.Error.{ok, err, state_rollback_detected}
use mef.Wire.{concat, index, slice, copy_at}
use mef.Wire.Laws.{copy_at-segment, index-segment, slice-segment, length-concat}
use mef.Limits.{max_aad_len}
use mef.Crypto.Suite
use mef.Crypto.Suite.{x_cha_cha20_poly1305}
use mef.Crypto.Primitives.{Primitives}
use mef.Crypto.Aead.{Ciphertext, from_parts, open_ciphertext}
use mef.Frame.Valid.{IsCiphertext, from_parts-eq}
use mef.Ratchet.Persistence.Codec.{version, decode_state}
use mef.Ratchet.Persistence.Snapshot.{magic, aad_label, state_aad, snapshot_segments, restore_state}

-- The aad of a snapshot of the present version.
abbrev pub context_aad : Bytes → Bytes
context_aad context = aad_label version ++ context

pub state_aad-eq :
    (context : Bytes)
    → 24 + length context ≤ max_aad_len
    → state_aad context version ≡ ok (context_aad context)
unfolding state_aad
state_aad-eq context h =
    rw
      (
        leb-true (24 + length context) usize_max (omega arith),
        ltb-false max_aad_len (24 + length context) h,
      )
      refl

-- The bytes of a snapshot with any generation in its header.
module _ (p : Primitives) (key context : Bytes) (short : 24 + length context ≤ max_aad_len)
    (c : Ciphertext) (v : IsCiphertext c) (xchacha : c.suite ≡ x_cha_cha20_poly1305) (n : ℕ)
    (fits : n ≤ u64_max) where
  abbrev segments : List Bytes
  segments = snapshot_segments n 24 (length c.body) c.nonce c.body

  unfoldable pub blob : Bytes
  blob = concat segments

  nonce_24 : length c.nonce ≡ 24
  unfolding Suite.nonce_len
  nonce_24 = v.nonce_fits ∙ ap Suite.nonce_len xchacha

  length-blob : length blob ≡ 41 + length c.body
  unfolding blob
  length-blob =
      length-concat segments
      ∙ omega (arith, nonce_24, length-to_be 8 n, length-to_be 4 (length c.body))

  abbrev before : ℕ → List Bytes
  before k = take k segments

  read_magic : slice 0 3 blob ≡ ok magic
  unfolding blob
  read_magic = slice-segment [] magic _ 0 3 refl refl

  read_version : index 3 blob ≡ ok version
  unfolding blob
  read_version = index-segment (before 1) version _ 3 refl

  read_generation : copy_at 4 8 blob ≡ ok (to_be 8 n)
  unfolding blob
  read_generation = copy_at-segment (before 2) _ _ 4 8 refl (length-to_be 8 n)

  read_nonce_size : index 12 blob ≡ ok 24
  unfolding blob
  read_nonce_size = index-segment (before 3) 24 _ 12 (omega (arith, length-to_be 8 n))

  read_body_len : copy_at 13 4 blob ≡ ok (to_be 4 (length c.body))
  unfolding blob
  read_body_len =
      copy_at-segment (before 4) _ _ 13 4 (omega (arith, length-to_be 8 n))
        (length-to_be 4 (length c.body))

  read_nonce : slice 17 41 blob ≡ ok c.nonce
  unfolding blob
  read_nonce =
      slice-segment (before 5) _ _ 17 41
        (omega (arith, length-to_be 8 n, length-to_be 4 (length c.body))) (omega (arith, nonce_24))

  read_body : slice 41 (41 + length c.body) blob ≡ ok c.body
  unfolding blob
  read_body =
      slice-segment (before 6) _ _ 41 _
        (omega (arith, nonce_24, length-to_be 8 n, length-to_be 4 (length c.body))) refl

  rebuilt : from_parts x_cha_cha20_poly1305 c.nonce c.body ≡ ok c
  rebuilt = rw (← xchacha) (from_parts-eq c v)

  pub restore-blob :
      (floor : ℕ) (plaintext : Bytes)
      → floor ≤ n
      → open_ciphertext p key c (context_aad context) ≡ ok plaintext
      → restore_state p key context floor blob ≡ decode_state p plaintext n version
  unfolding restore_state
  restore-blob floor plaintext low opened =
      rw
        (
          length-blob,
          ltb-false (41 + length c.body) 57 (omega arith),
          read_magic,
          bytes_eq_refl magic,
          read_version,
          read_generation,
          read_nonce_size,
          read_body_len,
          from_be-to_be 8 n (omega arith),
          from_be-to_be 4 (length c.body) (omega arith),
          ltb-false n floor low,
          leb-true (length c.body) usize_max (omega arith),
          leb-true (41 + length c.body) usize_max (omega arith),
          ==_refl (41 + length c.body),
          read_nonce,
          read_body,
          rebuilt,
          state_aad-eq context short,
          opened,
        )
        refl

  pub restore-low :
      (floor : ℕ) → n < floor → restore_state p key context floor blob ≡ err state_rollback_detected
  unfolding restore_state
  restore-low floor high =
      rw
        (
          length-blob,
          ltb-false (41 + length c.body) 57 (omega arith),
          read_magic,
          bytes_eq_refl magic,
          read_version,
          read_generation,
          from_be-to_be 8 n (omega arith),
          ltb-true n floor high,
        )
        refl
