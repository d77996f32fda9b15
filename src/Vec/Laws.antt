-- ===== src/Vec/Laws.antt =====
-- `position`, indexing and `remove` together.
use mef.Prelude.{
  ℕ, suc, ◌≡◌, refl, ap, Bool, true, none, some, List, [], ◌∷◌, length, All, Bool-cases, ◌⊎◌, inl,
  inr,
}
use mef.Error.{ok}
use mef.Vec.{position, elem_at, remove, Picks, here, there}

module _ {ℓ} {A : Type ℓ} where
  pub record Found (test : A → Bool) (xs : List A) (i : ℕ) : Type ℓ where
    pub elem : A
    pub rest : List A
    pub read : elem_at i xs ≡ ok elem
    pub removed : remove i xs ≡ ok rest
    pub picked : Picks test xs elem rest

  -- Either nothing passes the test, or the position leads to an element that does.
  pub position-cases :
      (test : A → Bool) (xs : List A)
      → (position test xs ≡ none) ⊎ ((i : ℕ) × (position test xs ≡ some i) × Found test xs i)
  unfolding position elem_at remove
  position-cases test [] = inl refl
  position-cases test (x ∷ xs) = elim (Bool-cases (test x)) [
    | inl hit ↦
        inr (
          0,
          rw hit,
          record { elem = x; rest = xs; read = refl; removed = refl; picked = here hit },
        )
    | inr miss ↦ elim (position-cases test xs) [
      | inl none_found ↦ inl (rw (miss, none_found))
      | inr (i, found, f) ↦ inr (
        suc i,
        rw (miss, found),
        record {
          elem = f.elem;
          rest = x ∷ f.rest;
          read = f.read;
          removed = rw f.removed;
          picked = there miss f.picked;
        },
      )
    ]
  ]

  pub Picks-test : {test : A → Bool} {xs ys : List A} {x : A} → Picks test xs x ys → test x ≡ true
  Picks-test (here hit) = hit
  Picks-test (there miss p) = Picks-test p

  pub length-Picks :
      {test : A → Bool} {xs ys : List A} {x : A} → Picks test xs x ys → length xs ≡ suc (length ys)
  length-Picks (here hit) = refl
  length-Picks (there miss p) = ap suc (length-Picks p)

  pub All-Picks {κ} :
      (P : A → Type κ) {test : A → Bool} {xs ys : List A} {x : A}
      → Picks test xs x ys
      → All P xs
      → All P ys
  All-Picks P (here hit) h = h.1
  All-Picks P (there miss p) h = (h.0, All-Picks P p h.1)

  pub All-Picks_elem {κ} :
      (P : A → Type κ) {test : A → Bool} {xs ys : List A} {x : A}
      → Picks test xs x ys
      → All P xs
      → P x
  All-Picks_elem P (here hit) h = h.0
  All-Picks_elem P (there miss p) h = All-Picks_elem P p h.1
