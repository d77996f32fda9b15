-- ===== src/Hybrid/Front.antt =====
-- hybrid.rs: how both parsers begin, on arbitrary bytes.
use mef.Prelude.{
  ℕ, ◌+◌, ◌≤◌, ◌<◌, ◌≡◌, refl, ap, ◌∙◌, false, true, not, List, [], ◌∷◌, ◌++◌, arith, Bytes, IsByte,
  All, All-take, All-drop, length, length-take, length-drop, take, drop, ltb, ◌==◌, to_be, from_be,
  from_be-lt, to_be-from_be, bytes_eq, Bool-cases, inl, inr, leb-true, ltb-false, usize_max, ◌^◌,
}
use mef.Error.{Result, ok, err, Ensures, Ensures-bind, Ensures-guard, invalid_frame}
use mef.Wire.{sum, index, concat, split_from}
use mef.Wire.Laws.{index-eq, copy_at-eq, slice-eq, slice-eq_width, concat-split_from}
use mef.Handshake.Verified.{same_byte, same_bytes}
use mef.Hybrid.Layout.{hybrid_magic, hybrid_version, decode_front}

-- What the bytes up to the second part hold: the encoding of the classical value, and the length of
-- the second part.
pub record Fronts {C : Type 0} (encode : C → Bytes) (P : C → Type 0) (bytes : Bytes)
    (read : C × ℕ × ℕ) : Type 0 where
  pub valid : P read.0
  pub second_len : ℕ
  pub start_read : read.1 ≡ length (encode read.0) + 8
  pub start_within : read.1 ≤ length bytes
  pub end_read : read.2 ≡ read.1 + second_len
  pub classical_fits : length (encode read.0) < 2 ^ 16
  pub second_fits : second_len < 2 ^ 16
  pub front :
      concat (
          hybrid_magic
          ∷ (hybrid_version ∷ [])
          ∷ to_be 2 (length (encode read.0))
          ∷ encode read.0
          ∷ to_be 2 second_len
          ∷ [])
        ++ drop read.1 bytes
      ≡ bytes

short : (n m : ℕ) → ltb n m ≡ false → m ≤ n
short n m h = ground arith

short-decode_front :
    {C : Type 0} (decode : Bytes → Result C) (bytes : Bytes)
    → ltb (length bytes) 8 ≡ true
    → decode_front decode bytes ≡ err invalid_frame
unfolding decode_front
short-decode_front decode bytes h = rw h refl

module _ {C : Type 0} (decode : Bytes → Result C) (encode : C → Bytes) (P : C → Type 0)
    (canonical : (bytes : Bytes)
      → All IsByte bytes
      → Ensures (λ c. P c × (encode c ≡ bytes)) (decode bytes))
    (bytes : Bytes) (v : All IsByte bytes) where
  abbrev part : ℕ → ℕ → Bytes
  part a n = take n (drop a bytes)

  part-IsByte : (a n : ℕ) → All IsByte (part a n)
  part-IsByte a n = All-take IsByte n (drop a bytes) (All-drop IsByte a bytes v)

  length-part : (a n : ℕ) → a + n ≤ length bytes → length (part a n) ≡ n
  length-part a n h = length-take n (drop a bytes) (omega (arith, length-drop a bytes))

  abbrev read_len : ℕ → ℕ
  read_len a = from_be (part a 2)

  read_len-lt : (a : ℕ) → a + 2 ≤ length bytes → read_len a < 2 ^ 16
  read_len-lt a h = from_be-lt 2 (part a 2) (part-IsByte a 2) (length-part a 2 h)

  read_len-back : (a : ℕ) → a + 2 ≤ length bytes → to_be 2 (read_len a) ≡ part a 2
  read_len-back a h = to_be-from_be 2 (part a 2) (part-IsByte a 2) (length-part a 2 h)

  module _ (lo : 8 ≤ length bytes) (b3 : ℕ) (e3 : index 3 bytes ≡ ok b3)
      (s3 : part 3 1 ≡ b3 ∷ []) where
    abbrev end : ℕ
    end = 6 + read_len 4

    front-Fronts :
        (c : C)
        → part 0 3 ≡ hybrid_magic
        → b3 ≡ hybrid_version
        → end + 2 ≤ length bytes
        → P c
        → encode c ≡ part 6 (read_len 4)
        → Fronts encode P bytes (c, end + 2, end + 2 + read_len end)
    unfolding split_from
    front-Fronts c named versioned within valid same =
        let classical_len : length (encode c) ≡ read_len 4 =
          ap length same ∙ length-part 6 (read_len 4) (omega arith) in
        let widths : List ℕ = 3 ∷ 1 ∷ 2 ∷ read_len 4 ∷ 2 ∷ [] in
        let counted : end + 2 ≡ 0 + sum widths = omega arith in
        let segments : hybrid_magic
              ∷ (hybrid_version ∷ [])
              ∷ to_be 2 (length (encode c))
              ∷ encode c
              ∷ to_be 2 (read_len end)
              ∷ []
            ≡ split_from 0 widths bytes =
          cc (read_len-back 4 (omega arith), read_len-back end within) in
        record {
          valid = valid;
          second_len = read_len end;
          start_read = omega (arith, classical_len);
          start_within = within;
          end_read = refl;
          classical_fits = omega (arith, read_len-lt 4 (omega arith), classical_len);
          second_fits = read_len-lt end within;
          front = rw (segments, counted) (concat-split_from 0 widths bytes);
        }

    decode_front-Fronts : Ensures (Fronts encode P bytes) (decode_front decode bytes)
    unfolding decode_front
    decode_front-Fronts =
        rw
          (
            ltb-false (length bytes) 8 lo,
            slice-eq 0 3 bytes (omega arith) (omega arith),
            e3,
            copy_at-eq 4 2 bytes (omega arith),
            leb-true end usize_max (omega (arith, read_len-lt 4 (omega arith))),
          )
          (Ensures-guard (Fronts encode P bytes) (not (bytes_eq (part 0 3) hybrid_magic))
            invalid_frame _
            λ named.
              Ensures-guard (Fronts encode P bytes) (not (b3 == hybrid_version)) invalid_frame _
                λ versioned.
                  Ensures-guard (Fronts encode P bytes) (ltb (length bytes) (end + 2)) invalid_frame
                    _
                    λ long.
                      let within = short (length bytes) (end + 2) long in
                      rw (slice-eq_width 6 (read_len 4) bytes (omega arith)) (
                        Ensures-bind (λ c. P c × (encode c ≡ part 6 (read_len 4)))
                          (Fronts encode P bytes) _ _
                          (canonical (part 6 (read_len 4)) (part-IsByte 6 (read_len 4)))
                          λ c read.
                            rw
                              (
                                copy_at-eq end 2 bytes within,
                                leb-true (end + 2 + read_len end) usize_max (
                                    omega
                                      (arith, read_len-lt 4 (omega arith), read_len-lt end within)),
                              )
                              (front-Fronts c (same_bytes (part 0 3) hybrid_magic named)
                                (same_byte b3 hybrid_version versioned) within read.0 read.1)))

  pub decode_front-Ensures : Ensures (Fronts encode P bytes) (decode_front decode bytes)
  decode_front-Ensures = elim (Bool-cases (ltb (length bytes) 8)) [
    | inl little ↦ rw (short-decode_front decode bytes little) tt
    | inr enough ↦
        let lo = short (length bytes) 8 enough in
        let (b3, e3, s3) = index-eq 3 bytes (omega arith) in decode_front-Fronts lo b3 e3 s3
  ]
