-- ===== src/Prelude/Words.antt =====
-- Machine words: the checked and saturating operations of u8, u16, u32, u64 and usize. A type is
-- given by its largest value; `usize` has 64 bits.
use Prim.Native.Nat.{ℕ, ◌+◌, ◌-◌, ◌*◌, ◌^◌}
use mathlib.Core.Option.{Option, none, some}
use mef.Prelude.Tests.{leb, if◌then◌else◌}

abbrev pub u8_max : ℕ
u8_max = 255

abbrev pub u16_max : ℕ
u16_max = 2 ^ 16 - 1

abbrev pub u32_max : ℕ
u32_max = 2 ^ 32 - 1

abbrev pub u64_max : ℕ
u64_max = 2 ^ 64 - 1

abbrev pub usize_max : ℕ
usize_max = 2 ^ 64 - 1

-- `checked_add`, `checked_mul`: no value on overflow.
abbrev pub checked_add : ℕ → ℕ → ℕ → Option ℕ
checked_add largest a b = if leb (a + b) largest then some (a + b) else none

abbrev pub checked_mul : ℕ → ℕ → ℕ → Option ℕ
checked_mul largest a b = if leb (a * b) largest then some (a * b) else none

-- `saturating_add` stops at the largest value; `saturating_sub` is subtraction on ℕ.
abbrev pub saturating_add : ℕ → ℕ → ℕ → ℕ
saturating_add largest a b = if leb (a + b) largest then a + b else largest

-- `u32::try_from(n)` and its like.
abbrev pub try_from : ℕ → ℕ → Option ℕ
try_from largest n = if leb n largest then some n else none
