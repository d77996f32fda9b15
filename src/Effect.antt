-- ===== src/Effect.antt =====
-- Calls that change an object or draw on the system's random numbers. A computation takes the
-- object (`&mut self`, or `Unit` where there is none) and the number of requests made to the
-- generator so far, and returns its result with both as it leaves them, on failure too.
pub mod Laws
use mef.Prelude.{ℕ}
use mef.Error.{Result, ok, err, panic}

abbrev pub M {ℓ κ} : Type ℓ → Type κ → Type (ℓ ⊔ κ)
M S A = S → ℕ → Result A × S × ℕ

abbrev pub pure {ℓ κ} : {S : Type ℓ} {A : Type κ} → A → M S A
pure a s g = (ok a, s, g)

-- A fallible step that touches neither.
abbrev pub lift {ℓ κ} : {S : Type ℓ} {A : Type κ} → Result A → M S A
lift r s g = (r, s, g)

abbrev pub get {ℓ} : {S : Type ℓ} → M S S
get s g = (ok s, s, g)

abbrev pub modify {ℓ} : {S : Type ℓ} → (S → S) → M S (Unit {0})
modify f s g = (ok tt, f s, g)

abbrev pub after {ℓ κ λ'} :
    {S : Type ℓ} {A : Type κ} {B : Type λ'} → Result A × S × ℕ → (A → M S B) → Result B × S × ℕ
after (ok a, s, g) f = f a s g
after (err e, s, g) f = (err e, s, g)
after (panic, s, g) f = (panic, s, g)

infixl 5 ◌>>=◌ ◌>>◌
abbrev pub ◌>>=◌ {ℓ κ λ'} : {S : Type ℓ} {A : Type κ} {B : Type λ'} → M S A → (A → M S B) → M S B
◌>>=◌ m f s g = after (m s g) f

abbrev pub ◌>>◌ {ℓ κ λ'} : {S : Type ℓ} {A : Type κ} {B : Type λ'} → M S A → M S B → M S B
m >> k = m >>= λ _. k

-- A step inside a method that leaves the method's object alone.
abbrev pub inside {ℓ κ} : {S : Type ℓ} {A : Type κ} → M (Unit {0}) A → M S A
inside m s g = let (r, _, g') = m tt g in (r, s, g')
