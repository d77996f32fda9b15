-- ===== src/Wire/Laws.antt =====
-- Reading a slice within its bounds, and reading a segment of a record.
use mef.Prelude.{
  ℕ, zero, suc, ◌+◌, ◌-◌, ◌≤◌, ◌<◌, ◌≡◌, refl, sym, ap, ◌∙◌, List, [], ◌∷◌, ◌++◌, append_assoc,
  arith, Bytes, length, take, drop, length-append, length-take, length-drop, take-append,
  drop-append, drop-nil, take-append-drop, append-nil, ==_refl, ltb-false,
}
use mef.Error.{ok}
use native.Mathlib.Nat.{zero-add, suc-add}
use mef.Wire.{sum, index, slice, copy_array, copy_at, concat, split_from, total}

pub slice-eq :
    (a b : ℕ) (bytes : Bytes)
    → a ≤ b
    → b ≤ length bytes
    → slice a b bytes ≡ ok (take (b - a) (drop a bytes))
unfolding slice
slice-eq a b bytes h k = rw (ltb-false b a h, ltb-false (length bytes) b k)

pub slice-eq_width :
    (a n : ℕ) (bytes : Bytes)
    → a + n ≤ length bytes
    → slice a (a + n) bytes ≡ ok (take n (drop a bytes))
slice-eq_width a n bytes h =
    let width : a + n - a ≡ n = omega arith in slice-eq a (a + n) bytes (omega arith) h ∙ rw width

pub copy_array-eq : (n : ℕ) (source : Bytes) → length source ≡ n → copy_array n source ≡ ok source
unfolding copy_array
copy_array-eq n source h = rw (h, ==_refl)

length-slice : (a n : ℕ) (bytes : Bytes) → a + n ≤ length bytes → length (take n (drop a bytes)) ≡ n
length-slice a n bytes h = length-take n (drop a bytes) (omega (arith, length-drop a bytes))

pub copy_at-eq :
    (a n : ℕ) (bytes : Bytes)
    → a + n ≤ length bytes
    → copy_at a n bytes ≡ ok (take n (drop a bytes))
unfolding copy_at
copy_at-eq a n bytes h =
    let width : a + n - a ≡ n = omega arith in
    rw (slice-eq a (a + n) bytes (omega arith) h, width)
      (copy_array-eq n (take n (drop a bytes)) (length-slice a n bytes h))

-- The byte read is the only one of its segment.
pub index-eq :
    (i : ℕ) (bytes : Bytes)
    → i < length bytes
    → (b : ℕ) × (index i bytes ≡ ok b) × (take 1 (drop i bytes) ≡ b ∷ [])
unfolding index
index-eq i [] h = absurd (omega arith)
index-eq zero (b ∷ bs) h = (b, refl, refl)
index-eq (suc i) (b ∷ bs) h = index-eq i bs (omega arith)

index-append : (xs : Bytes) (b : ℕ) (ys : Bytes) → index (length xs) (xs ++ b ∷ ys) ≡ ok b
unfolding index
index-append [] b ys = refl
index-append (x ∷ xs) b ys = index-append xs b ys

pub concat-append : (ss ts : List Bytes) → concat (ss ++ ts) ≡ concat ss ++ concat ts
unfolding concat
concat-append [] ts = refl
concat-append (s ∷ ss) ts = rw (concat-append ss ts) (sym (append_assoc s (concat ss) (concat ts)))

pub length-concat : (ss : List Bytes) → length (concat ss) ≡ total ss
unfolding concat
length-concat [] = refl
length-concat (s ∷ ss) = omega (arith, length-append s (concat ss), length-concat ss)

pub total-append : (ss ts : List Bytes) → total (ss ++ ts) ≡ total ss + total ts
total-append [] ts = omega arith
total-append (s ∷ ss) ts = omega (arith, total-append ss ts)

-- The same bytes, with the first of the segments behind a prefix counted to it.
pub concat-regroup :
    (bytes : Bytes) (pre ss ts : List Bytes)
    → bytes ≡ concat (pre ++ (ss ++ ts))
    → bytes ≡ concat ((pre ++ ss) ++ ts)
concat-regroup bytes pre ss ts h = h ∙ ap concat (sym (append_assoc pre ss ts))

module _ (pre : List Bytes) (s : Bytes) (post : List Bytes) where
  drop-segment : drop (total pre) (concat (pre ++ s ∷ post)) ≡ s ++ concat post
  unfolding concat
  drop-segment =
      rw (concat-append pre (s ∷ post), ← length-concat pre)
        (drop-append (concat pre) (s ++ concat post))

  take-segment : take (length s) (drop (total pre) (concat (pre ++ s ∷ post))) ≡ s
  take-segment = rw drop-segment (take-append s (concat post))

  segment_within : total pre + length s ≤ length (concat (pre ++ s ∷ post))
  unfolding concat
  segment_within = omega (
    arith,
    ap length (concat-append pre (s ∷ post)),
    length-append (concat pre) (s ++ concat post),
    length-append s (concat post),
    length-concat pre,
  )

  pub copy_at-segment :
      (a n : ℕ) → total pre ≡ a → length s ≡ n → copy_at a n (concat (pre ++ s ∷ post)) ≡ ok s
  copy_at-segment a n h k =
      rw (← h, ← k) (copy_at-eq (total pre) (length s) _ segment_within ∙ ap ok take-segment)

  pub slice-segment :
      (a b : ℕ) → total pre ≡ a → a + length s ≡ b → slice a b (concat (pre ++ s ∷ post)) ≡ ok s
  slice-segment a b h k =
      let width : total pre + length s - total pre ≡ length s = omega arith in
      rw (← k, ← h)
        (slice-eq (total pre) (total pre + length s) _ (omega arith) segment_within
          ∙ rw width (ap ok take-segment))

pub index-segment :
    (pre : List Bytes) (b : ℕ) (post : List Bytes) (a : ℕ)
    → total pre ≡ a
    → index a (concat (pre ++ (b ∷ []) ∷ post)) ≡ ok b
unfolding concat
index-segment pre b post a h =
    rw (← h, concat-append pre ((b ∷ []) ∷ post), ← length-concat pre)
      (index-append (concat pre) b (concat post))

pub drop-add : (a n : ℕ) (xs : Bytes) → drop (a + n) xs ≡ drop n (drop a xs)
drop-add zero n xs = rw zero-add
drop-add (suc a) n [] = drop-nil (suc a + n) ∙ sym (drop-nil n)
drop-add (suc a) n (x ∷ xs) = rw suc-add (drop-add a n xs)

-- The segments, and what is behind them, are the bytes.
pub concat-split_from :
    (a : ℕ) (ns : List ℕ) (bytes : Bytes)
    → concat (split_from a ns bytes) ++ drop (a + sum ns) bytes ≡ drop a bytes
unfolding concat split_from
concat-split_from a [] bytes = let none_added : a + 0 ≡ a = omega arith in rw none_added
concat-split_from a (n ∷ ns) bytes =
    let regrouped : a + (n + sum ns) ≡ a + n + sum ns = omega arith in
    rw (regrouped, append_assoc, concat-split_from (a + n) ns bytes, drop-add a n bytes)
      (take-append-drop n (drop a bytes))

pub concat-split_all :
    (ns : List ℕ) (n : ℕ) (bytes : Bytes)
    → sum ns ≡ n
    → concat (split_from 0 ns bytes ++ drop n bytes ∷ []) ≡ bytes
unfolding concat
concat-split_all ns n bytes h =
    rw
      (
        concat-append (split_from 0 ns bytes) (drop n bytes ∷ []),
        append-nil,
        ← h,
        ← zero-add (sum ns),
      )
      (concat-split_from 0 ns bytes)

pub take-of_append :
    (n : ℕ) (xs ys bytes : Bytes) → xs ++ ys ≡ bytes → length xs ≡ n → xs ≡ take n bytes
take-of_append n xs ys bytes h k = rw (← h, ← k) (sym (take-append xs ys))

pub drop-of_append : (n : ℕ) (xs ys : Bytes) → length xs ≡ n → drop n (xs ++ ys) ≡ ys
drop-of_append n xs ys h = rw (← h) (drop-append xs ys)

take-nil : (n : ℕ) → take {A = ℕ} n [] ≡ []
take-nil zero = refl
take-nil (suc n) = refl

pub take-add : (a b : ℕ) (xs : Bytes) → take (a + b) xs ≡ take a xs ++ take b (drop a xs)
take-add zero b xs = rw zero-add
take-add (suc a) b [] = take-nil (suc a + b) ∙ sym (take-nil b)
take-add (suc a) b (x ∷ xs) = rw suc-add (ap (◌∷◌ x) (take-add a b xs))

-- A slice that is two segments.
pub concat-join :
    (pre : List Bytes) (s t : Bytes) → concat (pre ++ s ∷ t ∷ []) ≡ concat (pre ++ (s ++ t) ∷ [])
unfolding concat
concat-join [] s t = sym (append_assoc s t [])
concat-join (x ∷ pre) s t = ap (λ rest. x ++ rest) (concat-join pre s t)
