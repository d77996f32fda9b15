-- ===== src/Vec.antt =====
-- `iter().position`, indexing and `Vec::remove`, which panic out of bounds.
pub mod Laws
pub mod Keyed
use mef.Prelude.{
  ℕ, zero, suc, ◌≡◌, Bool, true, false, Option, none, some, List, [], ◌∷◌, if◌then◌else◌,
}
use mef.Error.{Result, ok, panic, ◌>>=◌}
use mathlib.Core.Option

module _ {ℓ} {A : Type ℓ} where
  unfoldable pub position : (A → Bool) → List A → Option ℕ
  position test [] = none
  position test (x ∷ xs) = if test x then some 0 else Option.map suc (position test xs)

  unfoldable pub elem_at : ℕ → List A → Result A
  elem_at i [] = panic
  elem_at zero (x ∷ xs) = ok x
  elem_at (suc i) (x ∷ xs) = elem_at i xs

  unfoldable pub remove : ℕ → List A → Result (List A)
  remove i [] = panic
  remove zero (x ∷ xs) = ok xs
  remove (suc i) (x ∷ xs) = do rest ← remove i xs; ok (x ∷ rest)

  -- `iter().any`.
  unfoldable pub any : (A → Bool) → List A → Bool
  any test [] = false
  any test (x ∷ xs) = if test x then true else any test xs

  -- The first element that passes, and the list without it.
  pub data Picks (test : A → Bool) : List A → A → List A → Type ℓ where
    here : {x : A} {xs : List A} → test x ≡ true → Picks test (x ∷ xs) x xs
    there :
        {x y : A} {xs ys : List A}
        → test x ≡ false
        → Picks test xs y ys
        → Picks test (x ∷ xs) y (x ∷ ys)
