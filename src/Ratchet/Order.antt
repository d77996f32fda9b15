-- ===== src/Ratchet/Order.antt =====
-- ratchet/state.rs: frames of a new remote key, and `decrypt` on a frame that comes again.
use mef.Prelude.{
  ℕ, ◌+◌, ◌<◌, ◌≡◌, ◌≢◌, refl, sym, inl, inr, false, ◌++◌, arith, Bytes, length, ltb, lt_of_ltb,
  ltb-true, ltb_le, bytes_eq-ne, bytes_eq, bytes_eq_sound, bytes_eq_refl, u32_max, usize_max,
  checked_add, Bool-cases, All-append,
}
use mef.Error.{
  ok_or, counter_exhausted, skipped_key_limit_exceeded, Ensures-ok, ok, err, message_key_consumed,
}
use mef.Crypto.Primitives.{Primitives}
use mef.Keys.Dh.{DhPublicKey, diffie_hellman, generate}
use mef.Frame.Format.{InnerFrame, open_frame}
use mef.Ratchet.Schedule.{SkippedKeys, root_step, derive_for_message}
use mef.Ratchet.Schedule.Laws.{IsRun, derive_range-cases, Grants, derive_for_message-Ensures}
use mef.Ratchet.Skipped.{
  Under, Fresh, Distinct, position-Absent, Under-Absent, Under-mono, Under-of_Fresh, Fresh-entries,
  Under-entries, Distinct-add,
}
use mef.Ratchet.State.{RatchetState, skipped_entries}
use mef.Ratchet.Decrypt.{decrypt_skipped, decrypt_same_ratchet, decrypt_new_ratchet, decrypt}
use mef.Ratchet.Receive.{
  IsOrdered, mismatched, Received, Consumes, Consumes-lift, Consumes-inside, skipped-Consumes,
  ahead-Consumes,
}

module _ (p : Primitives) (s : RatchetState) (g : ℕ) (v : IsOrdered s) (f : InnerFrame)
    (fits : mismatched f s ≡ false) where
  new-list :
      (remote : DhPublicKey) (old new : SkippedKeys)
      → remote ≢ s.remote_dh
      → Fresh remote s.skipped
      → IsRun s.receiving_count old
      → IsRun 0 new
      → length new ≡ f.header.message_number
      → let all = (s.skipped ++ skipped_entries s.remote_dh old) ++ skipped_entries remote new in
        Distinct all × Under remote f.header.message_number all
  new-list remote old new other fresh run run' size =
      let front = s.skipped ++ skipped_entries s.remote_dh old in
      let front_fresh : Fresh remote front =
        All-append (λ x. x.remote_dh ≢ remote) s.skipped (skipped_entries s.remote_dh old) fresh
          (Fresh-entries remote s.remote_dh old (λ e. other (sym e))) in
      let front_distinct =
        Distinct-add s.remote_dh s.receiving_count old s.skipped v.distinct v.under run in
      (
        Distinct-add remote 0 new front front_distinct (Under-of_Fresh remote 0 front front_fresh)
            run',
        All-append (λ x. x.remote_dh ≡ remote → x.message_number < f.header.message_number) front
            (skipped_entries remote new)
            (Under-of_Fresh remote f.header.message_number front front_fresh)
            (Under-entries remote remote 0 f.header.message_number new run' (omega arith)),
      )

  -- The state behind a frame of a new remote key.
  settled :
      (remote : DhPublicKey) (t : RatchetState)
      → mismatched f t ≡ false
      → t.remote_dh ≡ remote
      → t.receiving_count ≡ f.header.message_number + 1
      → Distinct t.skipped × Under remote f.header.message_number t.skipped
      → IsOrdered t × Received f remote t
  settled remote t matches current count (distinct, under) = (
    record {
      under =
          rw (current, count)
            (Under-mono remote f.header.message_number (f.header.message_number + 1) t.skipped
              (omega arith) under);
      distinct = distinct;
    },
    record {
      matches = matches;
      current = current;
      passed = omega arith;
      absent =
          Under-Absent remote f.header.message_number f.header.message_number t.skipped under
            (omega arith);
    },
  )

  new-Consumes :
      (remote : DhPublicKey)
      → remote ≢ s.remote_dh
      → Fresh remote s.skipped
      → Consumes f remote (decrypt_new_ratchet p remote f s g)
  unfolding decrypt_new_ratchet generate
  new-Consumes remote other fresh =
      elim (derive_range-cases p s.receiving_chain s.receiving_count f.header.previous_chain_len
        (length s.skipped)) [
          | inl ((last, old), e, (_, old_run, _, _)) ↦ rw e (
              Consumes-lift f remote (diffie_hellman p s.dh_pair.secret remote) s g _ λ received _.
                Consumes-lift f remote (root_step p s.root_key received) s g _ λ (root, next) _.
                  Consumes-inside f remote (generate p) s g _ λ pair g'.
                    Consumes-lift f remote (diffie_hellman p pair.secret remote) s g' _ λ sent _.
                      Consumes-lift f remote (root_step p root sent) s g' _ λ (root', next') _.
                        Consumes-lift f remote
                          (ok_or (checked_add usize_max (length s.skipped) (length old))
                            skipped_key_limit_exceeded)
                          s g' _
                          λ extra _.
                            Consumes-lift f remote
                              (derive_for_message p next 0 f.header.message_number extra) s g' _
                              λ (chain, key, new) derived.
                                Consumes-lift f remote (open_frame p f key) s g' _ λ plaintext _.
                                  Consumes-lift f remote
                                    (ok_or (checked_add u32_max f.header.message_number 1)
                                      counter_exhausted)
                                    _ g' _
                                    λ count counted.
                                      let (_, run, size, _) =
                                        Ensures-ok
                                          (λ (r : Bytes × Bytes × SkippedKeys).
                                            Grants 0 f.header.message_number extra r.2)
                                          (derive_for_message p next 0 f.header.message_number
                                            extra)
                                          (derive_for_message-Ensures p next 0
                                            f.header.message_number extra)
                                          derived in
                                      settled remote _ fits refl (ground (arith, counted)) (
                                        new-list remote old new other fresh old_run run
                                          (omega (arith, size))))
          | inr (x, e) ↦ rw e tt
        ]

  same-Consumes :
      (remote : DhPublicKey)
      → remote ≡ s.remote_dh
      → Consumes f remote (decrypt_same_ratchet p remote f s g)
  unfolding decrypt_same_ratchet
  same-Consumes remote same =
      rw same (elim (Bool-cases (ltb f.header.message_number s.receiving_count)) [
        | inl old ↦ rw old (
            skipped-Consumes p s g v f fits
              (lt_of_ltb f.header.message_number s.receiving_count old))
        | inr new ↦
            rw new
              (ahead-Consumes p s g v f fits (ltb_le f.header.message_number s.receiving_count new))
      ])

module _ (p : Primitives) (s : RatchetState) (g : ℕ) (v : IsOrdered s) (f : InnerFrame) where
  decrypt-Consumes :
      (f.header.ratchet_public ≢ s.remote_dh → Fresh f.header.ratchet_public s.skipped)
      → Consumes f f.header.ratchet_public (decrypt p f s g)
  unfolding decrypt
  decrypt-Consumes fresh = elim (Bool-cases (mismatched f s)) [
    | inl refused ↦ rw refused tt
    | inr fits ↦ rw fits (elim (Bool-cases (bytes_eq f.header.ratchet_public s.remote_dh)) [
      | inl same ↦
          let e = bytes_eq_sound f.header.ratchet_public s.remote_dh same in
          rw same (same-Consumes p s g v f fits f.header.ratchet_public e)
      | inr new ↦
          let other = bytes_eq-ne f.header.ratchet_public s.remote_dh new in
          rw new (new-Consumes p s g v f fits f.header.ratchet_public other (fresh other))
    ])
  ]

  pub decrypt-Received :
      {plaintext : Bytes} {t : RatchetState} {g' : ℕ}
      → (f.header.ratchet_public ≢ s.remote_dh → Fresh f.header.ratchet_public s.skipped)
      → decrypt p f s g ≡ (ok plaintext, t, g')
      → IsOrdered t × Received f f.header.ratchet_public t
  decrypt-Received fresh h = rw h at (decrypt-Consumes fresh)

  -- Once a frame is decrypted, decrypting it again fails with MessageKeyConsumed and leaves the
  -- session unchanged, and the session stays in order. In order means: no skipped key stands twice,
  -- and those of the current remote key are of numbers already passed; a frame of a new remote key
  -- finds no skipped keys of that remote key.
  pub decrypt-once :
      {plaintext : Bytes} {t : RatchetState} {g' : ℕ}
      → (f.header.ratchet_public ≢ s.remote_dh → Fresh f.header.ratchet_public s.skipped)
      → decrypt p f s g ≡ (ok plaintext, t, g')
      → IsOrdered t × ((k : ℕ) → decrypt p f t k ≡ (err message_key_consumed, t, k))
  unfolding decrypt decrypt_same_ratchet decrypt_skipped
  decrypt-once {t = t} fresh h =
      let (ordered, r) = decrypt-Received fresh h in
      (
        ordered,
        λ k.
            rw
              (
                r.matches,
                r.current,
                bytes_eq_refl f.header.ratchet_public,
                ltb-true f.header.message_number t.receiving_count r.passed,
                position-Absent f.header.ratchet_public f.header.message_number t.skipped r.absent,
              )
              refl,
      )
