-- ===== src/Ratchet/Rotation.antt =====
-- ratchet/state.rs: calls of `rotate_sending_ratchet` with no frame in between.
use mef.Prelude.{
  ℕ, ◌<◌, ◌≡◌, ◌≢◌, refl, inl, inr, arith, Bytes, length, ltb-true, bytes_eq, Bool-cases,
  bytes_eq_sound,
}
use mef.Error.{ok, err, ratchet_state_mismatch}
use mef.Crypto.Primitives.{Primitives}
use mef.Frame.Header.{FrameKind}
use mef.Frame.Format.{InnerFrame, from_ciphertext}
use mef.Frame.Seal.{seal_frame}
use mef.Ratchet.Schedule.{derive_range}
use mef.Ratchet.State.{RatchetState, encrypt, rotate_sending_ratchet}
use mef.Ratchet.Decrypt.{decrypt, decrypt_new_ratchet}

module _ (p : Primitives) where
  rotate_lem :
      (s t : RatchetState) (g g' : ℕ)
      → rotate_sending_ratchet p s g ≡ (ok tt, t, g')
      → (t.sending_count ≡ 0) × (t.previous_sending_chain_len ≡ s.sending_count)
  unfolding rotate_sending_ratchet
  rotate_lem s t g g' h = ground arith

  encrypt_lem :
      (s t : RatchetState) (g g' : ℕ) (kind : FrameKind) (plaintext : Bytes) (f : InnerFrame)
      → encrypt p kind plaintext s g ≡ (ok f, t, g')
      → f.header.previous_chain_len ≡ s.previous_sending_chain_len
  unfolding encrypt seal_frame from_ciphertext
  encrypt_lem s t g g' kind plaintext f h = ground arith

  range_behind :
      (chain : Bytes) (start end existing : ℕ)
      → end < start
      → derive_range p chain start end existing ≡ err ratchet_state_mismatch
  unfolding derive_range
  range_behind chain start end existing h = rw (ltb-true end start h) refl

  behind-decrypt :
      (b : RatchetState) (k : ℕ) (f : InnerFrame)
      → f.header.previous_chain_len < b.receiving_count
      → f.header.ratchet_public ≢ b.remote_dh
      → decrypt p f b k ≡ (err ratchet_state_mismatch, b, k)
  unfolding decrypt decrypt_new_ratchet
  behind-decrypt b k f h other = elim (Bool-cases (bytes_eq f.header.ratchet_public b.remote_dh)) [
    | inl same ↦ absurd (other (bytes_eq_sound f.header.ratchet_public b.remote_dh same))
    | inr new ↦
        let range : derive_range p b.receiving_chain b.receiving_count f.header.previous_chain_len
              (length b.skipped)
            ≡ err ratchet_state_mismatch =
          range_behind b.receiving_chain b.receiving_count f.header.previous_chain_len
            (length b.skipped) h in
        rw new (ground (arith, range))
  ]

  -- When a session rotates its sending ratchet twice with no encryption in between, then a peer
  -- who has received on the chain before refuses the next frame, if its ratchet key is not the
  -- current one, with RatchetStateMismatch and keeps its state.
  pub rotate-twice :
      (a a1 a2 a3 b : RatchetState) (g g1 g2 g3 g4 g5 k : ℕ) (kind : FrameKind) (plaintext : Bytes)
      (f : InnerFrame)
      → rotate_sending_ratchet p a g ≡ (ok tt, a1, g1)
      → rotate_sending_ratchet p a1 g2 ≡ (ok tt, a2, g3)
      → encrypt p kind plaintext a2 g4 ≡ (ok f, a3, g5)
      → 0 < b.receiving_count
      → f.header.ratchet_public ≢ b.remote_dh
      → decrypt p f b k ≡ (err ratchet_state_mismatch, b, k)
  rotate-twice a a1 a2 a3 b g g1 g2 g3 g4 g5 k kind plaintext f first second sent received other =
      let (empty, _) = rotate_lem a a1 g g1 first in
      let (_, previous) = rotate_lem a1 a2 g2 g3 second in
      let carried = encrypt_lem a2 a3 g4 g5 kind plaintext f sent in
      behind-decrypt b k f (omega arith) other
