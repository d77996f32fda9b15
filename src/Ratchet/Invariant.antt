-- ===== src/Ratchet/Invariant.antt =====
-- ratchet/state.rs: the limit on skipped keys and the widths of the counters, as an invariant.
use mef.Prelude.{ℕ, ◌≤◌, inl, inr, arith, Bytes, length, length-append, u32_max, u64_max}
use mef.Error.{Result, ok, err, panic, Ensures}
use mef.Limits.{max_skipped_keys}
use mef.Vec.Laws.{position-cases, length-Picks}
use mef.Crypto.Primitives.{Primitives}
use mef.Crypto.Aead.{open_ciphertext, seal_with_nonce}
use mef.Keys.Dh.{DhPublicKey, diffie_hellman, generate}
use mef.Frame.Format.{InnerFrame, open_frame, encode_aad, from_ciphertext}
use mef.Frame.Header.{FrameKind}
use mef.Frame.Seal.{seal_frame}
use mef.Crypto.Seal.{seal}
use mef.Ratchet.Schedule.Laws.{
  derive_range-cases, derive_for_message-cases, derive_for_message-Ensures, chain_step-Ensures,
  root_step-Ensures,
}
use mef.Ratchet.Skipped.{length-entries}
use mef.Ratchet.State.{RatchetState, encrypt, rotate_sending_ratchet, skipped_entries}
use mef.Ratchet.Decrypt.{
  is_entry, decrypt_skipped, decrypt_ahead, decrypt_same_ratchet, decrypt_new_ratchet, decrypt,
}

pub record IsRatchet (s : RatchetState) : Type 0 where
  pub skipped_bounded : length s.skipped ≤ max_skipped_keys
  pub previous_fits : s.previous_sending_chain_len ≤ u32_max
  pub sending_fits : s.sending_count ≤ u32_max
  pub receiving_fits : s.receiving_count ≤ u32_max
  pub generation_fits : s.generation ≤ u64_max

-- The call ended in a value or an error, and left a state within the bounds.
abbrev pub Sane {ℓ} : {A : Type ℓ} → Result A × RatchetState × ℕ → Type 0
Sane (ok a, s, g) = IsRatchet s
Sane (err e, s, g) = IsRatchet s
Sane (panic, s, g) = ⊥

module _ (p : Primitives) where
  pub open_frame-Ensures :
      (f : InnerFrame) (key : Bytes) → Ensures (λ _. Unit {0}) (open_frame p f key)
  unfolding open_frame encode_aad open_ciphertext
  open_frame-Ensures f key = ground arith

  pub diffie_hellman-Ensures :
      (secret peer : Bytes) → Ensures (λ _. Unit {0}) (diffie_hellman p secret peer)
  unfolding diffie_hellman
  diffie_hellman-Ensures secret peer = ground arith

module _ (p : Primitives) (s : RatchetState) (g : ℕ) (v : IsRatchet s) where
  skipped-Sane :
      (remote : DhPublicKey) (n : ℕ) (f : InnerFrame) → Sane (decrypt_skipped p remote n f s g)
  unfolding decrypt_skipped
  skipped-Sane remote n f = elim (position-cases (is_entry remote n) s.skipped) [
    | inl missing ↦ rw missing v
    | inr (i, found, e) ↦
        rw (found, e.read, e.removed)
          (ground (arith, open_frame-Ensures p f e.elem.key, length-Picks e.picked))
  ]

  ahead-Sane :
      (remote : DhPublicKey) (f : InnerFrame)
      → f.header.message_number ≤ u32_max
      → Sane (decrypt_ahead p remote f s g)
  unfolding decrypt_ahead
  ahead-Sane remote f h =
      elim (derive_for_message-cases p s.receiving_chain s.receiving_count f.header.message_number
        (length s.skipped)) [
          | inl ((next, key, keys), e, granted) ↦ rw e (
              ground (
                arith,
                open_frame-Ensures p f key,
                length-append s.skipped (skipped_entries remote keys),
                length-entries remote keys,
              ))
          | inr (x, e) ↦ rw e v
        ]

  new-Sane :
      (remote : DhPublicKey) (f : InnerFrame)
      → f.header.message_number ≤ u32_max
      → Sane (decrypt_new_ratchet p remote f s g)
  unfolding decrypt_new_ratchet generate
  new-Sane remote f h =
      elim (derive_range-cases p s.receiving_chain s.receiving_count f.header.previous_chain_len
        (length s.skipped)) [
          | inl ((last, keys), e, granted) ↦ rw e (
              grind (
                arith, derive_for_message-Ensures, open_frame-Ensures, root_step-Ensures,
                diffie_hellman-Ensures, length-append, length-entries,
              ))
          | inr (x, e) ↦ rw e v
        ]

  same-Sane :
      (remote : DhPublicKey) (f : InnerFrame)
      → f.header.message_number ≤ u32_max
      → Sane (decrypt_same_ratchet p remote f s g)
  unfolding decrypt_same_ratchet
  same-Sane remote f h =
      ground (arith, skipped-Sane remote f.header.message_number f, ahead-Sane remote f h)

  -- Decrypting any frame of the wire's number width ends without a panic, in a state within the
  -- bounds: at most 1024 skipped keys, and counters that fit their types.
  pub decrypt-Sane : (f : InnerFrame) → f.header.message_number ≤ u32_max → Sane (decrypt p f s g)
  unfolding decrypt
  decrypt-Sane f h =
      ground (arith, same-Sane f.header.ratchet_public f h, new-Sane f.header.ratchet_public f h)

  pub encrypt-Sane : (kind : FrameKind) (plaintext : Bytes) → Sane (encrypt p kind plaintext s g)
  unfolding encrypt seal_frame seal seal_with_nonce encode_aad from_ciphertext
  encrypt-Sane kind plaintext = ground (arith, chain_step-Ensures p s.sending_chain)

  pub rotate-Sane : Sane (rotate_sending_ratchet p s g)
  unfolding rotate_sending_ratchet generate
  rotate-Sane = grind (arith, root_step-Ensures, diffie_hellman-Ensures)
