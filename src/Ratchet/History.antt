-- ===== src/Ratchet/History.antt =====
-- ratchet/state.rs: lists of calls on one session, from its start.
use mef.Prelude.{ℕ, ◌≤◌, ◌≡◌, List, [], ◌∷◌, arith, Bytes, All, u32_max}
use mef.Error.{Result, ok, err, panic}
use mef.Crypto.Primitives.{Primitives}
use mef.Crypto.Suite.{AeadSuite}
use mef.Frame.Header.{FrameKind}
use mef.Frame.Format.{InnerFrame}
use mef.Handshake.Authenticated.{AuthenticatedHandshake}
use mef.Ratchet.State.{RatchetState, encrypt, rotate_sending_ratchet}
use mef.Ratchet.Decrypt.{decrypt}
use mef.Ratchet.Init.{from_authenticated_handshake_with_suite}
use mef.Ratchet.Invariant.{IsRatchet, Sane, encrypt-Sane, decrypt-Sane, rotate-Sane}

pub data Call : Type 0 where
  encrypts : FrameKind → Bytes → Call
  decrypts : InnerFrame → Call
  rotates : Call

-- The frame of a call holds a message number of 32 bits, as every frame on the wire does.
abbrev pub IsCall : Call → Type 0
IsCall (encrypts kind plaintext) = Unit {0}
IsCall (decrypts f) = f.header.message_number ≤ u32_max
IsCall rotates = Unit {0}

-- A caller may go on after an error: the state is what the failed call left.
unfoldable pub step : Primitives → Call → RatchetState → ℕ → RatchetState × ℕ
step p (encrypts kind plaintext) s g = let (_, s', g') = encrypt p kind plaintext s g in (s', g')
step p (decrypts f) s g = let (_, s', g') = decrypt p f s g in (s', g')
step p rotates s g = let (_, s', g') = rotate_sending_ratchet p s g in (s', g')

unfoldable pub run : Primitives → List Call → RatchetState → ℕ → RatchetState × ℕ
unfolding step
run p [] s g = (s, g)
run p (c ∷ cs) s g = let (s', g') = step p c s g in run p cs s' g'

Sane-IsRatchet {ℓ} : {A : Type ℓ} (r : Result A × RatchetState × ℕ) → Sane r → IsRatchet r.1
Sane-IsRatchet (ok a, s, g) h = h
Sane-IsRatchet (err e, s, g) h = h
Sane-IsRatchet (panic, s, g) h = absurd h

step-IsRatchet :
    (p : Primitives) (c : Call) (s : RatchetState) (g : ℕ)
    → IsCall c
    → IsRatchet s
    → IsRatchet (step p c s g).0
unfolding step
step-IsRatchet p (encrypts kind plaintext) s g h v =
    Sane-IsRatchet (encrypt p kind plaintext s g) (encrypt-Sane p s g v kind plaintext)
step-IsRatchet p (decrypts f) s g h v = Sane-IsRatchet (decrypt p f s g) (decrypt-Sane p s g v f h)
step-IsRatchet p rotates s g h v =
    Sane-IsRatchet (rotate_sending_ratchet p s g) (rotate-Sane p s g v)

run-IsRatchet :
    (p : Primitives) (cs : List Call) (s : RatchetState) (g : ℕ)
    → All IsCall cs
    → IsRatchet s
    → IsRatchet (run p cs s g).0
unfolding run
run-IsRatchet p [] s g h v = v
run-IsRatchet p (c ∷ cs) s g h v =
    run-IsRatchet p cs (step p c s g).0 (step p c s g).1 h.1 (step-IsRatchet p c s g h.0 v)

init-IsRatchet :
    (p : Primitives) (h : AuthenticatedHandshake) (suite : AeadSuite) (s : RatchetState)
    → from_authenticated_handshake_with_suite p h suite ≡ ok s
    → IsRatchet s
unfolding from_authenticated_handshake_with_suite
init-IsRatchet p h suite s e = ground arith

-- A session made from a handshake keeps its bounds through any history of encryptions, decryptions
-- of wire frames and rotations, failed calls included: it holds at most 1024 skipped keys and its
-- counters fit their types.
pub run-init-IsRatchet :
    (p : Primitives) (h : AuthenticatedHandshake) (suite : AeadSuite) (s : RatchetState)
    (cs : List Call) (g : ℕ)
    → from_authenticated_handshake_with_suite p h suite ≡ ok s
    → All IsCall cs
    → IsRatchet (run p cs s g).0
run-init-IsRatchet p h suite s cs g made calls =
    run-IsRatchet p cs s g calls (init-IsRatchet p h suite s made)
