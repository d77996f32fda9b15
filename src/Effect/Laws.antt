-- ===== src/Effect/Laws.antt =====
-- Calls that succeeded, step by step, and what a chain of steps returns.
use mef.Prelude.{ℕ, ◌≡◌, refl}
use mef.Error.{Result, ok, err, panic, Ensures}
use mef.Effect.{M, after, lift, ◌>>=◌}

module _ {S A B : Type 0} where
  -- Inversion of a step that touches neither the object nor the generator: what follows may use what
  -- the step returned.
  pub lift-ok_inv :
      {P : Type 0} {s t : S} (r : Result A) (rest : A → M S B) (g k : ℕ) (out : B)
      → (lift r >>= rest) s g ≡ (ok out, t, k)
      → ((x : A) → r ≡ ok x → rest x s g ≡ (ok out, t, k) → P)
      → P
  lift-ok_inv (ok x) rest g k out done next = next x refl done
  lift-ok_inv (err e) rest g k out done next = cc
  lift-ok_inv panic rest g k out done next = cc

  -- Inversion of any step.
  pub step-ok_inv :
      {P : Type 0} {t : S} (step : Result A × S × ℕ) (rest : A → M S B) (k : ℕ) (out : B)
      → after step rest ≡ (ok out, t, k)
      → ((x : A) (s : S) (g : ℕ) → step ≡ (ok x, s, g) → rest x s g ≡ (ok out, t, k) → P)
      → P
  step-ok_inv (ok x, s, g) rest k out done next = next x s g refl done
  step-ok_inv (err e, s, g) rest k out done next = cc
  step-ok_inv (panic, s, g) rest k out done next = cc

  pub after-reply :
      (k : A → M S B) (out : Result A × S × ℕ) (a : A)
      → out.0 ≡ ok a
      → (after out k).0 ≡ (k a out.1 out.2).0
  after-reply k (ok x, s, g) a same = let value : x ≡ a = cc in rw value refl
  after-reply k (err e, s, g) a same = cc
  after-reply k (panic, s, g) a same = cc

  pub after-Ensures :
      (P : A → Type 0) (Q : B → Type 0) (k : A → M S B) (out : Result A × S × ℕ)
      → Ensures P out.0
      → ((a : A) (s : S) (g : ℕ) → P a → Ensures Q (k a s g).0)
      → Ensures Q (after out k).0
  after-Ensures P Q k (ok a, s, g) h next = next a s g h
  after-Ensures P Q k (err e, s, g) h next = tt
  after-Ensures P Q k (panic, s, g) h next = h

-- Two equal outcomes have one value.
pub out_injective :
    {S A : Type 0} {x y : A} {s t : S} {g k : ℕ}
    → ◌≡◌ {A = Result A × S × ℕ} (ok x, s, g) (ok y, t, k)
    → x ≡ y
out_injective done = cc
