-- ===== src/Ratchet/Receive.antt =====
-- ratchet/state.rs: which message numbers a session has received, for frames of the current remote
-- key.
use mef.Prelude.{
  ℕ, ◌+◌, ◌≤◌, ◌<◌, ◌≡◌, refl, inl, inr, Bool, false, not, ◌||◌, ◌++◌, arith, length, bytes_eq,
  u32_max, leb, Bool-cases, All-append,
}
use mef.Effect.{M, lift, inside, ◌>>=◌}
use mef.Error.{Ensures-cases, Result, ok, err, panic}
use mef.Crypto.Primitives.{Primitives}
use mef.Crypto.Suite
use mef.Keys.Dh.{DhPublicKey}
use mef.Frame.Format.{InnerFrame, open_frame}
use mef.Ratchet.Invariant.{open_frame-Ensures}
use mef.Vec.Laws.{position-cases, All-Picks, Picks-test}
use mef.Ratchet.Schedule.Laws.{derive_for_message-cases}
use mef.Ratchet.Skipped.{
  Absent, Under, Distinct, Under-Absent, Under-mono, Under-entries, Distinct-add, Distinct-Picks,
  is_entry_sound,
}
use mef.Ratchet.State.{RatchetState, skipped_entries}
use mef.Ratchet.Decrypt.{is_entry, decrypt_skipped, decrypt_ahead}

-- No skipped key stands twice, and those of the current remote key are of earlier numbers.
pub record IsOrdered (s : RatchetState) : Type 0 where
  pub under : Under s.remote_dh s.receiving_count s.skipped
  pub distinct : Distinct s.skipped

-- The first test of `decrypt`.
abbrev pub mismatched : InnerFrame → RatchetState → Bool
mismatched f s =
    not (bytes_eq f.header.session_id s.session_id) || not (Suite.same f.ciphertext.suite s.suite)

-- The frame's number was received under the remote key, and its key is gone.
pub record Received (f : InnerFrame) (remote : DhPublicKey) (s : RatchetState) : Type 0 where
  pub matches : mismatched f s ≡ false
  pub current : s.remote_dh ≡ remote
  pub passed : f.header.message_number < s.receiving_count
  pub absent : Absent remote f.header.message_number s.skipped

-- After a success the order holds and the frame is received.
abbrev pub Consumes {ℓ} :
    {A : Type ℓ} → InnerFrame → DhPublicKey → Result A × RatchetState × ℕ → Type 0
Consumes f remote (ok a, s, g) = IsOrdered s × Received f remote s
Consumes f remote (err e, s, g) = Unit {0}
Consumes f remote (panic, s, g) = Unit {0}

-- A failing step consumes nothing.
pub Consumes-lift {ℓ κ} :
    {A : Type ℓ} {B : Type κ} (f : InnerFrame) (remote : DhPublicKey) (r : Result A)
    (s : RatchetState) (g : ℕ) (k : A → M RatchetState B)
    → ((a : A) → r ≡ ok a → Consumes f remote (k a s g))
    → Consumes f remote ((lift r >>= k) s g)
Consumes-lift f remote (ok a) s g k h = h a refl
Consumes-lift f remote (err e) s g k h = tt
Consumes-lift f remote panic s g k h = tt

pub Consumes-inside {ℓ κ} :
    {A : Type ℓ} {B : Type κ} (f : InnerFrame) (remote : DhPublicKey) (m : M (Unit {0}) A)
    (s : RatchetState) (g : ℕ) (k : A → M RatchetState B)
    → ((a : A) (g' : ℕ) → Consumes f remote (k a s g'))
    → Consumes f remote ((inside m >>= k) s g)
Consumes-inside f remote m s g k h =
    Consumes-lift f remote (m tt g).0 s (m tt g).2 k (λ a e. h a (m tt g).2)

module _ (p : Primitives) (s : RatchetState) (g : ℕ) (v : IsOrdered s) (f : InnerFrame)
    (fits : mismatched f s ≡ false) where
  pub skipped-Consumes :
      f.header.message_number < s.receiving_count
      → Consumes f s.remote_dh (decrypt_skipped p s.remote_dh f.header.message_number f s g)
  unfolding decrypt_skipped
  skipped-Consumes h =
      elim (position-cases (is_entry s.remote_dh f.header.message_number) s.skipped) [
        | inl missing ↦ rw missing tt
        | inr (i, found, e) ↦
            let (same, numbered) =
              is_entry_sound s.remote_dh f.header.message_number e.elem (Picks-test e.picked) in
            let (distinct, absent) = Distinct-Picks e.picked v.distinct in
            let under =
              All-Picks (λ x. x.remote_dh ≡ s.remote_dh → x.message_number < s.receiving_count)
                e.picked v.under in
            let gone : Absent s.remote_dh f.header.message_number e.rest =
              rw (← same, ← numbered) absent in
            rw (found, e.read, e.removed)
              (elim (Ensures-cases (λ _. Unit {0}) (open_frame p f e.elem.key)
                (open_frame-Ensures p f e.elem.key)) [
                  | inl (plaintext, opened, _) ↦ rw opened (
                    record { under = under; distinct = distinct },
                    record { matches = fits; current = refl; passed = h; absent = gone },
                  )
                  | inr (x, refused) ↦ rw refused tt
                ])
      ]

  pub ahead-Consumes :
      s.receiving_count ≤ f.header.message_number
      → Consumes f s.remote_dh (decrypt_ahead p s.remote_dh f s g)
  unfolding decrypt_ahead
  ahead-Consumes h =
      elim (derive_for_message-cases p s.receiving_chain s.receiving_count f.header.message_number
        (length s.skipped)) [
          | inl ((next, key, keys), e, (low, run, covers, room)) ↦
              let distinct =
                Distinct-add s.remote_dh s.receiving_count keys s.skipped v.distinct v.under run in
              let old_under =
                Under-mono s.remote_dh s.receiving_count f.header.message_number s.skipped low
                  v.under in
              let new_under =
                Under-entries s.remote_dh s.remote_dh s.receiving_count f.header.message_number keys
                  run (omega arith) in
              let under =
                All-append
                  (λ x. x.remote_dh ≡ s.remote_dh → x.message_number < f.header.message_number)
                  s.skipped (skipped_entries s.remote_dh keys) old_under new_under in
              let all = s.skipped ++ skipped_entries s.remote_dh keys in
              rw e
                (elim (Ensures-cases (λ _. Unit {0}) (open_frame p f key)
                  (open_frame-Ensures p f key)) [
                    | inl (plaintext, opened, _) ↦
                        rw opened (elim (Bool-cases (leb (f.header.message_number + 1) u32_max)) [
                          | inl small ↦ rw small (
                            record {
                              under =
                                  Under-mono s.remote_dh f.header.message_number
                                    (f.header.message_number + 1) all (omega arith) under;
                              distinct = distinct;
                            },
                            record {
                              matches = fits;
                              current = refl;
                              passed = omega arith;
                              absent =
                                  Under-Absent s.remote_dh f.header.message_number
                                    f.header.message_number all under (omega arith);
                            },
                          )
                          | inr full ↦ rw full tt
                        ])
                    | inr (x, refused) ↦ rw refused tt
                  ])
          | inr (x, e) ↦ rw e tt
        ]
