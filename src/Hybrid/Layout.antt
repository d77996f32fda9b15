-- ===== src/Hybrid/Layout.antt =====
-- hybrid.rs: the layout that bundles and messages share, the magic, the version and a classical
-- part behind its length.
use mef.Prelude.{
  ℕ, ◌+◌, ◌%◌, ◌^◌, not, List, [], ◌∷◌, Bytes, length, ltb, ◌==◌, bytes_eq, to_be, from_be, codes,
  usize_max, checked_add,
}
use mef.Error.{Result, ok, ◌>>=◌, ◌>>◌, fail_if, ok_or, invalid_frame, invalid_length}
use mef.Wire.{index, slice, copy_at}

abbrev pub hybrid_magic : Bytes
hybrid_magic = codes "MEQ"

abbrev pub hybrid_version : ℕ
hybrid_version = 1

-- `&(bytes.len() as u16).to_be_bytes()`.
abbrev pub wire_len : Bytes → Bytes
wire_len bytes = to_be 2 (length bytes % 2 ^ 16)

-- What `encode` of both appends up to the second part, in its order.
abbrev pub front_segments : Bytes → Bytes → List Bytes
front_segments classical second =
    hybrid_magic
    ∷ (hybrid_version ∷ [])
    ∷ wire_len classical
    ∷ classical
    ∷ wire_len second
    ∷ second
    ∷ []

-- How `decode` of both begins: the classical part, where the second part starts, and where it ends.
unfoldable pub decode_front : {C : Type 0} → (Bytes → Result C) → Bytes → Result (C × ℕ × ℕ)
decode_front decode bytes = do
  fail_if (ltb (length bytes) 8) invalid_frame
  found_magic ← slice 0 3 bytes
  fail_if (not (bytes_eq found_magic hybrid_magic)) invalid_frame
  found_version ← index 3 bytes
  fail_if (not (found_version == hybrid_version)) invalid_frame
  classical_len ← copy_at 4 2 bytes
  classical_end ← ok_or (checked_add usize_max 6 (from_be classical_len)) invalid_length
  fail_if (ltb (length bytes) (classical_end + 2)) invalid_frame
  classical_bytes ← slice 6 classical_end bytes
  classical ← decode classical_bytes
  second_len ← copy_at classical_end 2 bytes
  second_end ← ok_or (checked_add usize_max (classical_end + 2) (from_be second_len)) invalid_length
  ok (classical, classical_end + 2, second_end)
