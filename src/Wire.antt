-- ===== src/Wire.antt =====
-- Access to byte slices, and records laid out as one segment after another. The parsers of
-- frame/wire.rs, envelope/outer.rs, handshake.rs and ratchet/persistence.rs read through these.
pub mod Laws
use mef.Prelude.{
  ℕ, zero, suc, ◌+◌, ◌-◌, ◌||◌, List, [], ◌∷◌, ◌++◌, Bytes, length, take, drop, ltb, ◌==◌,
  if◌then◌else◌,
}
use mef.Error.{Result, ok, err, panic, ◌>>=◌, invalid_frame}

-- `bytes[i]`.
unfoldable pub index : ℕ → Bytes → Result ℕ
index i [] = panic
index zero (b ∷ bs) = ok b
index (suc i) (b ∷ bs) = index i bs

-- `&bytes[a..b]`.
unfoldable pub slice : ℕ → ℕ → Bytes → Result Bytes
slice a b bytes =
    if ltb b a || ltb (length bytes) b then panic else ok (take (b - a) (drop a bytes))

-- `copy_array::<N>`: `source.try_into()` fails unless the length is N.
unfoldable pub copy_array : ℕ → Bytes → Result Bytes
copy_array n source = if length source == n then ok source else err invalid_frame

-- `copy_array::<n>(&bytes[a..a + n])`.
unfoldable pub copy_at : ℕ → ℕ → Bytes → Result Bytes
unfolding slice copy_array
copy_at a n bytes = do source ← slice a (a + n) bytes; copy_array n source

-- `extend_from_slice`, one segment after the other.
unfoldable pub concat : List Bytes → Bytes
concat [] = []
concat (s ∷ ss) = s ++ concat ss

-- The segments of the lengths `ns`, from the position `a` on.
unfoldable pub split_from : ℕ → List ℕ → Bytes → List Bytes
split_from a [] bytes = []
split_from a (n ∷ ns) bytes = take n (drop a bytes) ∷ split_from (a + n) ns bytes

abbrev pub sum : List ℕ → ℕ
sum [] = 0
sum (n ∷ ns) = n + sum ns

abbrev pub total : List Bytes → ℕ
total [] = 0
total (s ∷ ss) = length s + total ss
