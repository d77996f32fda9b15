-- ===== src/Ratchet/Persistence/Guarded.antt =====
-- ratchet/persistence.rs: `restore_state` on arbitrary bytes.
use mef.Prelude.{
  ℕ, ◌+◌, ◌-◌, ◌≤◌, ◌≡◌, refl, true, false, not, ◌||◌, ◌==◌, arith, Bytes, IsByte, All, All-take,
  All-drop, length, length-take, length-drop, take, drop, ltb, from_be, from_be-lt, bytes_eq,
  ltb-false, u64_max, usize_max, checked_add, try_from, Bool-cases, inl, inr,
}
use mef.Error.{
  ok, err, ok_or, MefError, Ensures, Ensures-bind, Ensures-guard, Ensures-intro, Ensures-map,
  invalid_frame, invalid_length, state_rollback_detected,
}
use mef.Wire.{index}
use mef.Wire.Laws.{index-eq, copy_at-eq, slice-eq}
use mef.Crypto.Suite.{x_cha_cha20_poly1305}
use mef.Crypto.Primitives.{Primitives, HasBytes}
use mef.Crypto.Aead.{Ciphertext, from_parts, open_ciphertext}
use mef.Ratchet.State.{RatchetState}
use mef.Ratchet.Persistence.Codec.{version, legacy_version, decode_state}
use mef.Ratchet.Persistence.Snapshot.{magic, header_len, state_aad, restore_state}
use mef.Ratchet.Persistence.Snapshot as Snapshot
use mef.Ratchet.Persistence.Layout.{IsStored}
use mef.Ratchet.Persistence.Untrusted.{Restores, decode_state-Ensures}

-- A valid session, not older than the floor.
abbrev pub IsCurrent : Primitives → ℕ → RatchetState → Type 0
IsCurrent p floor s = IsStored p s × (floor ≤ s.generation)

checked_add-Ensures :
    (largest a b : ℕ) (e : MefError) → Ensures (λ n. n ≡ a + b) (ok_or (checked_add largest a b) e)
checked_add-Ensures largest a b e = ground arith

try_from-Ensures :
    (largest n : ℕ) (e : MefError) → Ensures (λ m. m ≡ n) (ok_or (try_from largest n) e)
try_from-Ensures largest n e = ground arith

state_aad-ne-panic : (context : Bytes) (v : ℕ) → Ensures (λ _. Unit {0}) (state_aad context v)
unfolding state_aad
state_aad-ne-panic context v = ground arith

from_parts-Ensures :
    (nonce body : Bytes) → Ensures (λ c. c.body ≡ body) (from_parts x_cha_cha20_poly1305 nonce body)
unfolding from_parts
from_parts-Ensures nonce body =
    Ensures-intro (λ (c : Ciphertext). c.body ≡ body) _ (ground arith) λ c made. ground arith

open_ciphertext-Ensures :
    (p : Primitives) (key : Bytes) (c : Ciphertext) (aad : Bytes)
    → HasBytes p
    → All IsByte c.body
    → Ensures (All IsByte) (open_ciphertext p key c aad)
unfolding open_ciphertext
open_ciphertext-Ensures p key c aad octets v =
    Ensures-intro (All IsByte) _ (ground arith)
      λ body opened. octets.decrypted c.suite key c.nonce aad c.body body v (ground arith)

not_below : (n m : ℕ) → ltb n m ≡ false → m ≤ n
not_below n m h = ground arith

module _ (p : Primitives) (key context : Bytes) (floor : ℕ) (blob : Bytes) (octets : HasBytes p)
    (v : All IsByte blob) where
  abbrev part : ℕ → ℕ → Bytes
  part a n = take n (drop a blob)

  part-IsByte : (a n : ℕ) → All IsByte (part a n)
  part-IsByte a n = All-take IsByte n (drop a blob) (All-drop IsByte a blob v)

  abbrev generation : ℕ
  generation = from_be (part 4 8)

  module _ (long : 57 ≤ length blob) (b3 b12 : ℕ) where
    generation_fits : generation ≤ u64_max
    generation_fits = omega (
      arith,
      from_be-lt 8 (part 4 8) (part-IsByte 4 8)
          (length-take 8 (drop 4 blob) (omega (arith, length-drop 4 blob))),
    )

    abbrev rest : Bytes
    rest = part 41 (length blob - 41)

    decode_state-IsCurrent :
        (plaintext : Bytes) (valid : All IsByte plaintext) (v : ℕ)
        → floor ≤ generation
        → Ensures (IsCurrent p floor) (decode_state p plaintext generation v)
    decode_state-IsCurrent plaintext valid v low =
        Ensures-map (Restores plaintext valid p generation generation_fits) (IsCurrent p floor)
          (λ s r. (r.0, omega (arith, r.1))) _
          (decode_state-Ensures plaintext valid p generation generation_fits v)

    restore_state-IsCurrent_long :
        index 3 blob ≡ ok b3
        → index 12 blob ≡ ok b12
        → Ensures (IsCurrent p floor) (restore_state p key context floor blob)
    unfolding restore_state
    restore_state-IsCurrent_long e3 e12 =
        rw
          (
            ltb-false (length blob) 57 long,
            slice-eq 0 3 blob (omega arith) (omega arith),
            e3,
            copy_at-eq 4 8 blob (omega arith),
            e12,
            copy_at-eq 13 4 blob (omega arith),
          )
          (Ensures-guard (IsCurrent p floor) (not (bytes_eq (part 0 3) magic)) invalid_frame _
            λ named.
              Ensures-guard (IsCurrent p floor) (not (b3 == legacy_version || b3 == version))
                invalid_frame _
                λ known.
                  Ensures-guard (IsCurrent p floor) (ltb generation floor) state_rollback_detected _
                    λ recent.
                      Ensures-bind (λ n. n ≡ from_be (part 13 4)) (IsCurrent p floor) _ _
                        (try_from-Ensures usize_max (from_be (part 13 4)) invalid_length)
                        λ body_len body_len_read.
                          Ensures-bind (λ n. n ≡ 17 + b12) (IsCurrent p floor) _ _
                            (checked_add-Ensures usize_max 17 b12 invalid_length)
                            λ with_nonce with_nonce_made.
                              Ensures-bind (λ n. n ≡ with_nonce + body_len) (IsCurrent p floor) _ _
                                (checked_add-Ensures usize_max with_nonce body_len invalid_length)
                                λ expected expected_made.
                                  Ensures-guard (IsCurrent p floor)
                                    (not (b12 == Snapshot.nonce_len)
                                      || not (expected == length blob))
                                    invalid_frame _
                                    λ fits.
                                      rw
                                        (
                                          slice-eq 17 41 blob (omega arith) (omega arith),
                                          slice-eq 41 (length blob) blob (omega arith)
                                              (omega arith),
                                        )
                                        (Ensures-bind (λ (c : Ciphertext). c.body ≡ rest)
                                          (IsCurrent p floor) _ _
                                          (from_parts-Ensures (part 17 24) rest)
                                          λ c same.
                                            Ensures-bind (λ _. Unit {0}) (IsCurrent p floor) _ _
                                              (state_aad-ne-panic context b3)
                                              λ aad _.
                                                Ensures-bind (All IsByte) (IsCurrent p floor) _ _
                                                  (open_ciphertext-Ensures p key c aad octets
                                                    (rw same (part-IsByte 41 (length blob - 41))))
                                                  λ plaintext valid.
                                                    decode_state-IsCurrent plaintext valid b3
                                                      (not_below generation floor recent)))

  short-restore_state :
      ltb (length blob) 57 ≡ true → restore_state p key context floor blob ≡ err invalid_frame
  unfolding restore_state
  short-restore_state h = rw h refl

  -- Whatever bytes it is given, restoring a session ends without reading out of bounds; if it
  -- succeeds, the session is valid, with at most 1024 skipped keys, none twice, and its generation is
  -- not below the floor. The AEAD decrypts bytes to bytes.
  pub restore_state-IsCurrent : Ensures (IsCurrent p floor) (restore_state p key context floor blob)
  restore_state-IsCurrent = elim (Bool-cases (ltb (length blob) 57)) [
    | inl short ↦ rw (short-restore_state short) tt
    | inr enough ↦
        let long = not_below (length blob) 57 enough in
        let (b3, e3, _) = index-eq 3 blob (omega arith) in
        let (b12, e12, _) = index-eq 12 blob (omega arith) in
        restore_state-IsCurrent_long long b3 b12 e3 e12
  ]
