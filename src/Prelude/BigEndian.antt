-- ===== src/Prelude/BigEndian.antt =====
-- `to_be_bytes` and `from_be_bytes` of the unsigned integers, at every width in bytes.
use Prim.Native.Nat.{ℕ, zero, suc, ◌+◌, ◌*◌, ◌/◌, ◌%◌, ◌^◌, ◌<◌}
use mathlib.Core.Path.{◌≡◌, refl, ◌∙◌}
use mathlib.Core.List.{List, [], ◌∷◌, ◌++◌, append_assoc, append-nil}
use native.Mathlib.Omega.{arith}
use native.Mathlib.Nat.{pow-suc, zero-add}
use mef.Prelude.Lists.{length, length-append, All, All-append}

abbrev pub Bytes : Type 0
Bytes = List ℕ

abbrev pub IsByte : ℕ → Type 0
IsByte b = b < 256

-- The lowest byte of `v` stands last.
unfoldable pub to_be : ℕ → ℕ → Bytes
to_be zero v = []
to_be (suc w) v = to_be w (v / 256) ++ v % 256 ∷ []

from_be_onto : ℕ → Bytes → ℕ
from_be_onto acc [] = acc
from_be_onto acc (b ∷ bs) = from_be_onto (acc * 256 + b) bs

unfoldable pub from_be : Bytes → ℕ
unfolding from_be_onto
from_be bs = from_be_onto 0 bs

pub length-to_be : (w v : ℕ) → length (to_be w v) ≡ w
unfolding to_be
length-to_be zero v = refl
length-to_be (suc w) v =
    omega (arith, length-append (to_be w (v / 256)) (v % 256 ∷ []), length-to_be w (v / 256))

pub to_be-IsByte : (w v : ℕ) → All IsByte (to_be w v)
unfolding to_be
to_be-IsByte zero v = tt
to_be-IsByte (suc w) v =
    All-append IsByte (to_be w (v / 256)) (v % 256 ∷ []) (to_be-IsByte w (v / 256)) (omega arith)

from_be_onto-append :
    (acc : ℕ) (xs ys : Bytes) → from_be_onto acc (xs ++ ys) ≡ from_be_onto (from_be_onto acc xs) ys
unfolding from_be_onto
from_be_onto-append acc [] ys = refl
from_be_onto-append acc (x ∷ xs) ys = from_be_onto-append (acc * 256 + x) xs ys

from_be_onto-to_be : (w v : ℕ) → v < 256 ^ w → from_be_onto 0 (to_be w v) ≡ v
unfolding from_be_onto to_be
from_be_onto-to_be zero v h = omega arith
from_be_onto-to_be (suc w) v h =
    from_be_onto-append 0 (to_be w (v / 256)) (v % 256 ∷ [])
    ∙ omega (arith, from_be_onto-to_be w (v / 256) (omega (arith, pow-suc 256 w)))

-- Reading back what was written, within the width.
pub from_be-to_be : (w v : ℕ) → v < 256 ^ w → from_be (to_be w v) ≡ v
unfolding from_be
from_be-to_be w v h = from_be_onto-to_be w v h

to_be-from_be_onto :
    (k acc n : ℕ) (bs : Bytes)
    → All IsByte bs
    → k + length bs ≡ n
    → to_be n (from_be_onto acc bs) ≡ to_be k acc ++ bs
unfolding from_be_onto to_be
to_be-from_be_onto k acc n [] h e = let same : n ≡ k = omega arith in rw (append-nil, same)
to_be-from_be_onto k acc n (b ∷ bs) h e =
    to_be-from_be_onto (suc k) (acc * 256 + b) n bs h.1 (omega arith)
    ∙ rw (shifted, lowest) (append_assoc (to_be k acc) (b ∷ []) bs)
  where
    shifted : (acc * 256 + b) / 256 ≡ acc
    shifted = omega (arith, h.0)

    lowest : (acc * 256 + b) % 256 ≡ b
    lowest = omega (arith, h.0)

pub to_be-from_be : (w : ℕ) (bs : Bytes) → All IsByte bs → length bs ≡ w → to_be w (from_be bs) ≡ bs
unfolding from_be to_be
to_be-from_be w bs h e = to_be-from_be_onto 0 0 w bs h (omega arith)

from_be_onto-lt :
    (acc k : ℕ) (bs : Bytes)
    → All IsByte bs
    → acc < 256 ^ k
    → from_be_onto acc bs < 256 ^ (length bs + k)
unfolding from_be_onto
from_be_onto-lt acc k [] v h = rw zero-add h
from_be_onto-lt acc k (b ∷ bs) v h =
    let moved : suc (length bs) + k ≡ length bs + suc k = omega arith in
    rw moved (from_be_onto-lt (acc * 256 + b) (suc k) bs v.1 (omega (arith, v.0, pow-suc 256 k)))

-- What is read from `w` bytes fits them.
pub from_be-lt : (w : ℕ) (bs : Bytes) → All IsByte bs → length bs ≡ w → from_be bs < 256 ^ w
unfolding from_be
from_be-lt w bs v h =
    let width : length bs + 0 ≡ w = omega arith in
    rw width at (from_be_onto-lt 0 0 bs v (omega arith))
