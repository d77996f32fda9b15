-- ===== src/Vec/Keyed.antt =====
-- Vectors whose elements carry an identifier, searched by it.
use mef.Prelude.{
  ℕ, ◌≡◌, refl, Bool, true, false, Option, none, some, List, [], ◌∷◌, ◌++◌, arith, ◌==◌, ==_iff,
  if◌then◌else◌, Bool-cases, inl, inr,
}
use mef.Vec.{position, any, Picks, here, there}

module _ {ℓ} {A : Type ℓ} (key : A → ℕ) where
  abbrev pub has : ℕ → List A → Bool
  has id xs = any (λ x. key x == id) xs

  same_as : (id j : ℕ) (x : A) → (key x == id) ≡ true → (j == id) ≡ true → j ≡ key x
  same_as id j x h k = ground arith

  -- The first element with the identifier.
  abbrev pub find : ℕ → List A → Option A
  find id [] = none
  find id (x ∷ xs) = if key x == id then some x else find id xs

  -- No identifier stands twice.
  abbrev pub Distinct : List A → Type 0
  Distinct [] = Unit {0}
  Distinct (x ∷ xs) = (has (key x) xs ≡ false) × Distinct xs

  pub find_absent : (id : ℕ) (xs : List A) → has id xs ≡ false → find id xs ≡ none
  unfolding any
  find_absent id [] h = refl
  find_absent id (x ∷ xs) h = ground (arith, find_absent id xs)

  pub find_present : (id : ℕ) (xs : List A) → has id xs ≡ true → (x : A) × (find id xs ≡ some x)
  unfolding any
  find_present id [] h = cc
  find_present id (x ∷ xs) h = elim (Bool-cases (key x == id)) [
    | inl hit ↦ (x, rw hit)
    | inr miss ↦
        let later : has id xs ≡ true = rw miss at h in
        let (y, found) = find_present id xs later in (y, rw miss found)
  ]

  pub find-append :
      (id : ℕ) (xs ys : List A)
      → find id (xs ++ ys) ≡ (if has id xs then find id xs else find id ys)
  unfolding any
  find-append id [] ys = refl
  find-append id (x ∷ xs) ys = ground (arith, find-append id xs ys)

  pub has-append :
      (id : ℕ) (xs ys : List A) → has id (xs ++ ys) ≡ (if has id xs then true else has id ys)
  unfolding any
  has-append id [] ys = refl
  has-append id (x ∷ xs) ys = ground (arith, has-append id xs ys)

  pub Distinct-snoc :
      (xs : List A) (x : A) → Distinct xs → has (key x) xs ≡ false → Distinct (xs ++ x ∷ [])
  unfolding any
  Distinct-snoc [] x d h = (refl, tt)
  Distinct-snoc (y ∷ xs) x d h =
      (ground (arith, has-append (key y) xs (x ∷ [])), Distinct-snoc xs x d.1 (ground arith))

  -- An added element hides nothing.
  pub find-snoc :
      (id : ℕ) (xs : List A) (x : A)
      → has (key x) xs ≡ false
      → find id (xs ++ x ∷ []) ≡ (if key x == id then some x else find id xs)
  find-snoc id xs x h = elim (Bool-cases (key x == id)) [
    | inl same ↦
        let absent : has id xs ≡ false = rw (← (==_iff (key x) id).0 same) h in
        rw (find-append id xs (x ∷ []), absent, same) refl
    | inr other ↦ rw (find-append id xs (x ∷ []), other) (ground (arith, find_absent id xs))
  ]

  pub has-Picks :
      (id : ℕ) {xs ys : List A} {x : A} (j : ℕ)
      → Picks (λ x. key x == id) xs x ys
      → has j xs ≡ false
      → has j ys ≡ false
  unfolding any
  has-Picks id j (here hit) h = ground arith
  has-Picks id j (there miss p) h = ground (arith, has-Picks id j p)

  pub Distinct-Picks :
      (id : ℕ) {xs ys : List A} {x : A}
      → Picks (λ x. key x == id) xs x ys
      → Distinct xs
      → Distinct ys
  Distinct-Picks id (here hit) d = d.1
  Distinct-Picks id (there miss p) d = (has-Picks id _ p d.0, Distinct-Picks id p d.1)

  pub find-Picks :
      (id : ℕ) {xs ys : List A} {x : A} → Picks (λ x. key x == id) xs x ys → find id xs ≡ some x
  find-Picks id (here hit) = rw hit
  find-Picks id (there miss p) = rw miss (find-Picks id p)

  -- Removing the element hides its identifier and nothing else.
  pub find-Picks_rest :
      (id : ℕ) {xs ys : List A} {x : A} (j : ℕ)
      → Picks (λ x. key x == id) xs x ys
      → Distinct xs
      → find j ys ≡ (if j == id then none else find j xs)
  find-Picks_rest id {x = x} j (here {xs = xs} hit) d = elim (Bool-cases (j == id)) [
    | inl same ↦
        let absent : has j xs ≡ false = rw (same_as id j x hit same) d.0 in
        rw same (find_absent j xs absent)
    | inr other ↦ ground arith
  ]
  find-Picks_rest id j (there miss p) d = ground (arith, find-Picks_rest id j p)

  pub position-none :
      (id : ℕ) (xs : List A) → position (λ x. key x == id) xs ≡ none → find id xs ≡ none
  unfolding position
  position-none id [] h = refl
  position-none id (x ∷ xs) h = ground (arith, position-none id xs)
