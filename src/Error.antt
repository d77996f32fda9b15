-- ===== src/Error.antt =====
-- error.rs: the errors of the public interface, and `Result<T>` of lib.rs.
-- `panic` is no value of the program: it stands for an index or a slice out of bounds.
use mef.Prelude.{◌≡◌, refl, subst, ◌≢◌, ◌⊎◌, inl, inr, Bool, true, false, Option, none, some}

pub data MefError : Type 0 where
  authentication_failed invalid_frame unsupported_suite invalid_length : MefError
  non_contributory_key_agreement key_derivation_failed randomness_unavailable : MefError
  counter_exhausted skipped_key_limit_exceeded envelope_expired replay_detected : MefError
  message_key_consumed ratchet_state_mismatch state_rollback_detected invalid_state : MefError

pub data Result {ℓ} (A : Type ℓ) : Type ℓ where
  ok : A → Result A
  err : MefError → Result A
  panic : Result A

-- `?` on a result.
infixl 5 ◌>>=◌ ◌>>◌
abbrev pub ◌>>=◌ {ℓ ℓ'} :
    {Mid : Type ℓ} {End : Type ℓ'} (attempt : Result Mid) (next : Mid → Result End) → Result End
panic >>= next = panic
err e >>= next = err e
ok value >>= next = next value

abbrev pub ◌>>◌ {ℓ ℓ'} :
    {Mid : Type ℓ} {End : Type ℓ'} (attempt : Result Mid) (next : Result End) → Result End
attempt >> next = attempt >>= λ _. next

-- `if b { return Err(e) }`.
abbrev pub fail_if : Bool → MefError → Result (Unit {0})
fail_if true e = err e
fail_if false e = ok tt

-- `.ok_or(e)`, and `.map_err(|_| e)` where the third party's error carries nothing.
abbrev pub ok_or {ℓ} : {A : Type ℓ} → Option A → MefError → Result A
ok_or none e = err e
ok_or (some a) e = ok a

-- The computation ends, without a panic, in an error or in a value that meets `P`.
abbrev pub Ensures {ℓ} : {A : Type ℓ} → (A → Type 0) → Result A → Type 0
Ensures P (ok a) = P a
Ensures P (err e) = Unit {0}
Ensures P panic = ⊥

module _ {ℓ} {A : Type ℓ} (P : A → Type 0) where
  pub Ensures-ok : (r : Result A) {a : A} → Ensures P r → r ≡ ok a → P a
  Ensures-ok (ok b) h e = subst P (cc) h
  Ensures-ok (err x) h e = cc
  Ensures-ok panic h e = absurd h

  pub Ensures-ne-panic : (r : Result A) → Ensures P r → r ≢ panic
  Ensures-ne-panic (ok b) h e = cc
  Ensures-ne-panic (err x) h e = cc
  Ensures-ne-panic panic h e = h

  pub Ensures-intro : (r : Result A) → r ≢ panic → ((a : A) → r ≡ ok a → P a) → Ensures P r
  Ensures-intro (ok a) h k = k a refl
  Ensures-intro (err e) h k = tt
  Ensures-intro panic h k = h refl

  -- To split on a computed result and keep the equation.
  pub Ensures-cases :
      (r : Result A) → Ensures P r → ((a : A) × (r ≡ ok a) × P a) ⊎ ((e : MefError) × (r ≡ err e))
  Ensures-cases (ok a) h = inl (a, refl, h)
  Ensures-cases (err e) h = inr (e, refl)
  Ensures-cases panic h = absurd h

pub Ensures-map {ℓ} :
    {A : Type ℓ} (P Q : A → Type 0)
    → ((a : A) → P a → Q a)
    → (r : Result A) → Ensures P r
    → Ensures Q r
Ensures-map P Q f (ok a) h = f a h
Ensures-map P Q f (err e) h = tt
Ensures-map P Q f panic h = h

module _ {ℓ κ} {A : Type ℓ} {B : Type κ} where
  pub Ensures-bind :
      (P : A → Type 0) (Q : B → Type 0) (m : Result A) (f : A → Result B)
      → Ensures P m
      → ((a : A) → P a → Ensures Q (f a))
      → Ensures Q (m >>= f)
  Ensures-bind P Q (ok a) f h k = k a h
  Ensures-bind P Q (err e) f h k = tt
  Ensures-bind P Q panic f h k = h

  -- Inversion of a step that succeeded.
  pub >>=-ok_inv :
      (step : Result A) (rest : A → Result B) {out : B} (done : step >>= rest ≡ ok out)
      → (mid : A) × (rest mid ≡ ok out) × (step ≡ ok mid)
  >>=-ok_inv panic rest done = cc
  >>=-ok_inv (err e) rest done = cc
  >>=-ok_inv (ok mid) rest done = (mid, done, refl)

-- A guard: what follows may use that the test failed.
pub Ensures-guard {ℓ} :
    {A : Type ℓ} (Q : A → Type 0) (b : Bool) (e : MefError) (f : Unit {0} → Result A)
    → (b ≡ false → Ensures Q (f tt))
    → Ensures Q (fail_if b e >>= f)
Ensures-guard Q true e f h = tt
Ensures-guard Q false e f h = h refl

pub fail_if-eq-ok : (b : Bool) (e : MefError) {u : Unit {0}} → fail_if b e ≡ ok u → b ≡ false
fail_if-eq-ok true e h = cc
fail_if-eq-ok false e h = refl
