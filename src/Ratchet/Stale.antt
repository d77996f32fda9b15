-- ===== src/Ratchet/Stale.antt =====
-- ratchet/state.rs: `decrypt` on frames of another ratchet key than the current one.
use mef.Prelude.{ℕ, ◌≡◌, ◌≢◌, inl, inr, Bool-cases, arith, List, length, bytes_eq, bytes_eq_sound}
use mef.Crypto.Primitives.{Primitives}
use mef.Frame.Format.{InnerFrame}
use mef.Ratchet.State.{RatchetState, SkippedMessageKey}
use mef.Ratchet.Decrypt.{decrypt, decrypt_new_ratchet}

module _ (p : Primitives) (s : RatchetState) (g : ℕ) (keys : List SkippedMessageKey)
    (same_number : length keys ≡ length s.skipped) (f : InnerFrame) where
  new-stale :
      (decrypt_new_ratchet p f.header.ratchet_public f (record s { skipped = keys }) g).0
      ≡ (decrypt_new_ratchet p f.header.ratchet_public f s g).0
  unfolding decrypt_new_ratchet
  new-stale = rw same_number (ground arith)

  -- For a frame whose ratchet key is not the current one, the result of `decrypt` does not depend
  -- on the skipped keys the session holds, only on how many there are.
  pub decrypt-stale :
      f.header.ratchet_public ≢ s.remote_dh
      → (decrypt p f (record s { skipped = keys }) g).0 ≡ (decrypt p f s g).0
  unfolding decrypt
  decrypt-stale other = elim (Bool-cases (bytes_eq f.header.ratchet_public s.remote_dh)) [
    | inl same ↦ absurd (other (bytes_eq_sound f.header.ratchet_public s.remote_dh same))
    | inr new ↦ rw new (ground (arith, new-stale))
  ]
