-- ===== src/Ratchet/Atomicity.antt =====
-- ratchet/state.rs: the state that a call leaves, after a success and after an error.
use mef.Prelude.{
  ℕ, ◌≤◌, ◌≡◌, ◌⊎◌, inl, inr, arith, Bytes, bytes_eq, u32_max, u64_max, saturating_add, Bool-cases,
  bytes_eq_sound,
}
use mef.Error.{Result, ok, err, panic, counter_exhausted}
use mef.Crypto.Primitives.{Primitives}
use mef.Keys.Dh.{DhPublicKey}
use mef.Frame.Format.{InnerFrame}
use mef.Frame.Header.{FrameKind}
use mef.Ratchet.Schedule.Laws.{derive_for_message-Ensures}
use mef.Ratchet.State.{RatchetState, encrypt, rotate_sending_ratchet}
use mef.Ratchet.Decrypt.{
  decrypt_skipped, decrypt_ahead, decrypt_same_ratchet, decrypt_new_ratchet, decrypt,
}

-- After a success one transaction is counted. A failure leaves the state as it was, unless the
-- counter had no room (`full`): then the chain may be lost, and nothing else has changed.
abbrev pub Commits {ℓ} :
    {A : Type ℓ}
    → Type 0
    → (RatchetState → Type 0)
    → RatchetState
    → Result A × RatchetState × ℕ
    → Type 0
Commits full Lost s (ok a, s', g) = s'.generation ≡ saturating_add u64_max s.generation 1
Commits full Lost s (err e, s', g) = (s' ≡ s) ⊎ ((e ≡ counter_exhausted) × full × Lost s')
Commits full Lost s (panic, s', g) = Unit {0}

-- Only the receiving chain differs; only the sending chain does.
abbrev pub ReceivingLost : RatchetState → RatchetState → Type 0
ReceivingLost s s' = s' ≡ record s { receiving_chain = s'.receiving_chain }

abbrev pub SendingLost : RatchetState → RatchetState → Type 0
SendingLost s s' = s' ≡ record s { sending_chain = s'.sending_chain }

module _ (p : Primitives) (s : RatchetState) (g : ℕ) where
  -- A successful encryption counts one transaction. A failed one leaves the state unchanged, unless
  -- the sending counter stands at its largest value: then it may have lost the sending chain, and
  -- nothing else, with the error CounterExhausted.
  pub encrypt-Commits :
      (kind : FrameKind) (plaintext : Bytes)
      → s.sending_count ≤ u32_max
      → Commits (s.sending_count ≡ u32_max) (SendingLost s) s (encrypt p kind plaintext s g)
  unfolding encrypt
  encrypt-Commits kind plaintext h = ground arith

  rotate-Commits : Commits ⊥ (λ _. Unit {0}) s (rotate_sending_ratchet p s g)
  unfolding rotate_sending_ratchet
  rotate-Commits = ground arith

  module _ (f : InnerFrame) (h : f.header.message_number ≤ u32_max) where
    abbrev pub Decrypts : Result Bytes × RatchetState × ℕ → Type 0
    Decrypts =
        Commits ((f.header.message_number ≡ u32_max) × (f.header.ratchet_public ≡ s.remote_dh))
          (ReceivingLost s) s

    skipped-Commits : (remote : DhPublicKey) (n : ℕ) → Decrypts (decrypt_skipped p remote n f s g)
    unfolding decrypt_skipped
    skipped-Commits remote n = ground arith

    ahead-Commits :
        f.header.ratchet_public ≡ s.remote_dh
        → Decrypts (decrypt_ahead p f.header.ratchet_public f s g)
    unfolding decrypt_ahead
    ahead-Commits same = ground arith

    new-Commits : Decrypts (decrypt_new_ratchet p f.header.ratchet_public f s g)
    unfolding decrypt_new_ratchet
    new-Commits = grind (arith, derive_for_message-Ensures)

    same-Commits :
        f.header.ratchet_public ≡ s.remote_dh
        → Decrypts (decrypt_same_ratchet p f.header.ratchet_public f s g)
    unfolding decrypt_same_ratchet
    same-Commits same =
        ground (
          arith,
          skipped-Commits f.header.ratchet_public f.header.message_number,
          ahead-Commits same,
        )

    -- A successful decryption counts one transaction. A failed one leaves the state unchanged, so
    -- no key is consumed, unless the frame is the last that the current receiving chain can
    -- number: then it may have lost the receiving chain, and nothing else, with the error
    -- CounterExhausted.
    pub decrypt-Commits : Decrypts (decrypt p f s g)
    unfolding decrypt
    decrypt-Commits = elim (Bool-cases (bytes_eq f.header.ratchet_public s.remote_dh)) [
      | inl same ↦
          rw same
            (ground (arith, same-Commits (bytes_eq_sound f.header.ratchet_public s.remote_dh same)))
      | inr new ↦ rw new (ground (arith, new-Commits))
    ]
