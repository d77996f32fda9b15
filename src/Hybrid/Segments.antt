-- ===== src/Hybrid/Segments.antt =====
-- hybrid.rs: how both parsers begin, on an encoding.
use mef.Prelude.{
  ℕ, ◌+◌, ◌<◌, ◌≡◌, refl, ◌∙◌, List, [], ◌++◌, arith, Bytes, length, take, ◌%◌, ◌^◌, from_be,
  from_be-to_be, length-to_be, bytes_eq_refl, leb-true, ltb-false, usize_max,
}
use mef.Error.{Result, ok}
use mef.Wire.{index, slice, copy_at, concat, total}
use mef.Wire.Laws.{index-segment, copy_at-segment, slice-segment, length-concat}
use mef.Hybrid.Layout.{hybrid_magic, hybrid_version, wire_len, front_segments, decode_front}

module _ (classical second : Bytes) (tail : List Bytes) (fits : length classical < 2 ^ 16)
    (second_fits : length second < 2 ^ 16) where
  unfoldable pub sent : Bytes
  sent = concat (front_segments classical second ++ tail)

  abbrev before : ℕ → List Bytes
  before k = take k (front_segments classical second ++ tail)

  abbrev wire_len-length : (bytes : Bytes) → length (wire_len bytes) ≡ 2
  wire_len-length bytes = length-to_be 2 (length bytes % 2 ^ 16)

  wire_len-back : (bytes : Bytes) → length bytes < 2 ^ 16 → from_be (wire_len bytes) ≡ length bytes
  wire_len-back bytes h = from_be-to_be 2 (length bytes % 2 ^ 16) (omega arith) ∙ omega arith

  pub length-sent : length sent ≡ 8 + length classical + length second + total tail
  unfolding sent
  length-sent =
      length-concat (front_segments classical second ++ tail)
      ∙ omega (arith, wire_len-length classical, wire_len-length second)

  read_magic : slice 0 3 sent ≡ ok hybrid_magic
  unfolding sent
  read_magic = slice-segment [] hybrid_magic _ 0 3 refl refl

  read_version : index 3 sent ≡ ok hybrid_version
  unfolding sent
  read_version = index-segment (before 1) hybrid_version _ 3 refl

  read_classical_len : copy_at 4 2 sent ≡ ok (wire_len classical)
  unfolding sent
  read_classical_len = copy_at-segment (before 2) _ _ 4 2 refl (wire_len-length classical)

  abbrev classical_end : ℕ
  classical_end = 6 + length classical

  read_classical : slice 6 classical_end sent ≡ ok classical
  unfolding sent
  read_classical =
      slice-segment (before 3) classical _ 6 classical_end
        (omega (arith, wire_len-length classical)) refl

  read_second_len : copy_at classical_end 2 sent ≡ ok (wire_len second)
  unfolding sent
  read_second_len =
      copy_at-segment (before 4) _ _ classical_end 2 (omega (arith, wire_len-length classical))
        (wire_len-length second)

  abbrev pub second_start : ℕ
  second_start = classical_end + 2

  abbrev pub second_end : ℕ
  second_end = second_start + length second

  abbrev pub front_read : total (before 5) ≡ second_start
  front_read = omega (arith, wire_len-length classical, wire_len-length second)

  pub read_second : slice second_start second_end sent ≡ ok second
  unfolding sent
  read_second = slice-segment (before 5) second tail second_start second_end front_read refl

  pub decode_front-sent :
      {C : Type 0} (decode : Bytes → Result C) (c : C)
      → decode classical ≡ ok c
      → decode_front decode sent ≡ ok (c, second_start, second_end)
  unfolding decode_front
  decode_front-sent decode c back =
      rw
        (
          ltb-false (length sent) 8 (omega (arith, length-sent)),
          read_magic,
          bytes_eq_refl hybrid_magic,
          read_version,
          read_classical_len,
          wire_len-back classical fits,
          leb-true classical_end usize_max (omega arith),
          ltb-false (length sent) second_start (omega (arith, length-sent)),
          read_classical,
          back,
          read_second_len,
          wire_len-back second second_fits,
          leb-true second_end usize_max (omega arith),
        )
        refl
