-- ===== src/Envelope/Once.antt =====
-- envelope/outer.rs: `open_inner_once` on an envelope that comes again.
use mef.Prelude.{
  ℕ, ◌≤◌, ◌<◌, ◌≡◌, ◌≢◌, refl, inl, inr, List, arith, All, ltb, ltb-true, ltb_le, lt_of_ltb,
  Bool-cases,
}
use mef.Error.{ok, err, envelope_expired}
use mef.Crypto.Primitives.{Primitives}
use mef.Keys.Dh.{DhSecretKey}
use mef.Frame.Format.{InnerFrame}
use mef.Envelope.Replay.{ReplayCache, check_and_insert}
use mef.Envelope.Replay.Once.{
  Check, Held, checks, checks-Held, check_and_insert-accepts, check_and_insert-refuses,
}
use mef.Envelope.Outer.{OuterEnvelope, open_envelope, open_inner}
use mef.Envelope.Deliver.{open_inner_once}

module _ (p : Primitives) (e : OuterEnvelope) (secret : DhSecretKey) where
  open_inner-late :
      (now : ℕ) → e.expires_at_unix < now → open_inner p e secret now ≡ err envelope_expired
  unfolding open_inner open_envelope
  open_inner-late now late = rw (ltb-true e.expires_at_unix now late) refl

  -- A delivery that succeeds has recorded the identifier.
  open_inner_once-Held :
      (now g : ℕ) (c : ReplayCache) {g' : ℕ} {c' : ReplayCache} {frame : InnerFrame}
      → open_inner_once p e secret now c g ≡ (ok frame, c', g')
      → Held e.message_id e.expires_at_unix c'.entries
  unfolding open_inner_once
  open_inner_once-Held now g c {g' = g'} {c' = c'} accepted =
      let checked : check_and_insert e.message_id e.expires_at_unix now c g ≡ (ok tt, c', g') =
        ground arith in
      check_and_insert-accepts c g e.message_id e.expires_at_unix now checked

  -- An envelope that was delivered is not delivered again at any time, after any calls on the cache
  -- in between whose times have not passed the expiry of the envelope.
  pub open_inner_once-twice :
      (now g : ℕ) (c : ReplayCache) {g' : ℕ} {c' : ReplayCache} {frame : InnerFrame}
      (calls : List Check) (now_again k : ℕ) (again : InnerFrame)
      → open_inner_once p e secret now c g ≡ (ok frame, c', g')
      → All (λ (other, expires_at, time). time ≤ e.expires_at_unix) calls
      → (open_inner_once p e secret now_again (checks calls c') k).0 ≢ ok again
  unfolding open_inner_once
  open_inner_once-twice now g c {c' = c'} calls now_again k again accepted in_time =
      elim (Bool-cases (ltb e.expires_at_unix now_again)) [
        | inl late ↦
            rw (open_inner-late now_again (lt_of_ltb e.expires_at_unix now_again late)) (λ h. cc)
        | inr in_force ↦
            let held = checks-Held calls c' in_time (open_inner_once-Held now g c accepted) in
            let refused =
              check_and_insert-refuses (checks calls c') k e.expires_at_unix now_again
                (ltb_le e.expires_at_unix now_again in_force) held in
            ground (arith, refused)
      ]
