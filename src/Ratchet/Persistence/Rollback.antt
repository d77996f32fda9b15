-- ===== src/Ratchet/Persistence/Rollback.antt =====
-- ratchet/persistence.rs: `seal_state` followed by `restore_state`, and the rollback floor.
use mef.Prelude.{
  ℕ, ◌+◌, ◌≤◌, ◌<◌, ◌≡◌, refl, ◌∙◌, [], ◌∷◌, ◌++◌, arith, Bytes, length, take, drop, to_be,
  length-to_be, leb-true, u32_max, u64_max,
}
use mef.Error.{ok, err, state_rollback_detected}
use mef.Wire.{concat}
use mef.Wire.Laws.{drop-of_append}
use mef.Limits.{max_aad_len, max_ciphertext_len}
use mef.Crypto.Suite
use mef.Crypto.Suite.{x_cha_cha20_poly1305}
use mef.Crypto.Primitives.{Primitives, IsAead, Granted}
use mef.Crypto.Seal.Opens.{seal-Seals}
use mef.Frame.Seal.Opens.{Seals-IsCiphertext}
use mef.Ratchet.State.{RatchetState}
use mef.Ratchet.Persistence.Snapshot.{snapshot_segments, restore_state}
use mef.Ratchet.Persistence.Seal.{seal_state}
use mef.Ratchet.Persistence.Layout.{IsStored, plain, length-plain, encode_state-eq}
use mef.Ratchet.Persistence.RoundTrip.{decode_state-plain}
use mef.Ratchet.Persistence.Restore.{context_aad, state_aad-eq, blob, restore-blob, restore-low}

-- The blob with another generation written over the header's.
abbrev pub with_generation : ℕ → Bytes → Bytes
with_generation n bytes = take 4 bytes ++ (to_be 8 n ++ drop 12 bytes)

with_generation-segments :
    (n g size body_len : ℕ) (nonce body : Bytes)
    → with_generation n (concat (snapshot_segments g size body_len nonce body))
      ≡ concat (snapshot_segments n size body_len nonce body)
unfolding concat
with_generation-segments n g size body_len nonce body =
    let rest = (size ∷ []) ++ (to_be 4 body_len ++ (nonce ++ (body ++ []))) in
    let behind : drop 8 (to_be 8 g ++ rest) ≡ rest =
      drop-of_append 8 (to_be 8 g) rest (length-to_be 8 g) in
    rw behind refl

module _ (p : Primitives) (aead : IsAead p) (s : RatchetState) (v : IsStored p s)
    (key context : Bytes) (k : ℕ) where
  -- What sealing the session gives.
  record Stored : Type 0 where
    pub bytes : Bytes
    pub sealed : seal_state p s key context tt k ≡ (ok bytes, tt, k + 1)
    -- At the floor or above, the session comes back.
    pub restores :
        (floor : ℕ) → floor ≤ s.generation → restore_state p key context floor bytes ≡ ok s
    -- Below the floor it is refused.
    pub refuses :
        (floor : ℕ)
        → s.generation < floor
        → restore_state p key context floor bytes ≡ err state_rollback_detected
    -- Whatever generation is written into the header, with it the session comes back.
    pub forged :
        (floor n : ℕ)
        → floor ≤ n
        → n ≤ u64_max
        → restore_state p key context floor (with_generation n bytes)
          ≡ ok (record s { generation = n })

  seal_state-Stored : length key ≡ 32 → 24 + length context ≤ max_aad_len → Granted p k 24 → Stored
  unfolding seal_state blob Suite.nonce_len
  seal_state-Stored key_len short granted =
      let room : length (plain p s v) + 16 ≤ max_ciphertext_len =
        omega (arith, length-plain p s v, v.bounded.skipped_bounded) in
      let (c, made, e) =
        seal-Seals p aead key key_len x_cha_cha20_poly1305 (context_aad context) (plain p s v) k
          granted (omega arith) room in
      let cipher =
        Seals-IsCiphertext p aead key key_len x_cha_cha20_poly1305 (context_aad context)
          (plain p s v) c e room in
      let nonce_len : length c.nonce ≡ 24 = e.nonce_fits in
      let of_generation =
        λ (n : ℕ) (fits : n ≤ u64_max). blob p key context short c cipher e.suite_kept n fits in
      record {
        bytes = of_generation s.generation v.bounded.generation_fits;
        sealed =
            rw
              (
                state_aad-eq context short,
                encode_state-eq p s v,
                made,
                leb-true (length c.body) u32_max (omega arith),
                nonce_len,
              )
              refl;
        restores = λ floor low.
            restore-blob p key context short c cipher e.suite_kept s.generation
              v.bounded.generation_fits floor (plain p s v) low e.opens
            ∙ decode_state-plain p s v s.generation;
        refuses = λ floor high.
            restore-low p key context short c cipher e.suite_kept s.generation
              v.bounded.generation_fits floor high;
        forged = λ floor n low fits.
            rw (with_generation-segments n s.generation 24 (length c.body) c.nonce c.body) (
              restore-blob p key context short c cipher e.suite_kept n fits floor (plain p s v) low
                e.opens
              ∙ decode_state-plain p s v n);
      }

module _ (p : Primitives) (aead : IsAead p) (s : RatchetState) (v : IsStored p s)
    (key context : Bytes) (k floor : ℕ) (key_len : length key ≡ 32)
    (short : 24 + length context ≤ max_aad_len) (granted : Granted p k 24) where
  -- A session is sealed into bytes that restore to it, under the same key and context, at any
  -- rollback floor up to its generation. The AEAD decrypts what it encrypts, the session's fields
  -- have their widths and no skipped key stands twice, the key has 32 bytes, the context leaves
  -- room for the label, and the request for the nonce is granted.
  pub restore_state-seal_state :
      floor ≤ s.generation
      → (bytes : Bytes) × (seal_state p s key context tt k ≡ (ok bytes, tt, k + 1))
        × (restore_state p key context floor bytes ≡ ok s)
  restore_state-seal_state low =
      let r = seal_state-Stored p aead s v key context k key_len short granted in
      (r.bytes, r.sealed, r.restores floor low)

  -- A sealed session is refused with StateRollbackDetected at any floor above its generation, under
  -- the conditions of the round trip.
  pub restore_state-refuses :
      s.generation < floor
      → (bytes : Bytes) × (seal_state p s key context tt k ≡ (ok bytes, tt, k + 1))
        × (restore_state p key context floor bytes ≡ err state_rollback_detected)
  restore_state-refuses high =
      let r = seal_state-Stored p aead s v key context k key_len short granted in
      (r.bytes, r.sealed, r.refuses floor high)

  -- The generation in the header is not authenticated: with any other one of 64 bits written over
  -- it, at or above the floor, the bytes still restore, to the session with that generation, under
  -- the conditions of the round trip.
  pub restore_state-forged :
      (n : ℕ)
      → floor ≤ n
      → n ≤ u64_max
      → (bytes : Bytes) × (seal_state p s key context tt k ≡ (ok bytes, tt, k + 1))
        × (restore_state p key context floor (with_generation n bytes)
            ≡ ok (record s { generation = n }))
  restore_state-forged n low fits =
      let r = seal_state-Stored p aead s v key context k key_len short granted in
      (r.bytes, r.sealed, r.forged floor n low fits)
