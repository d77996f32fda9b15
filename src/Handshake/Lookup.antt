-- ===== src/Handshake/Lookup.antt =====
-- handshake.rs: what the vectors of a responder's material answer after an addition and after a
-- removal.
use mef.Prelude.{
  ℕ, ◌≡◌, refl, subst, inl, inr, ◌||◌, false, none, some, List, [], ◌∷◌, ◌++◌, All, arith, ◌==◌,
  Bool-cases,
}
use mathlib.Core.Option
use mathlib.Core.Path.{fun_ext}
use mef.Vec.{any, Picks}
use mef.Vec.Keyed.{
  has, find, Distinct, find_absent, find_present, find-snoc, has-append, find-Picks_rest,
}
use mef.Keys.Dh.{DhKeyPair}
use mef.Keys.Prekey.{SignedPrekey}
use mef.Handshake.Material.{OneTimePrekey, is_one_time, is_retired}
use mef.Handshake.Agreement.{find_retired}
use mef.Handshake.Store.{set_key, is_some}
use mef.Handshake.Valid.{one_time_id, retired_id, one_time_in, signed_in}

-- What the vectors answer after an addition and after a removal.
pub one_time_in-snoc :
    (xs : List OneTimePrekey) (entry : OneTimePrekey)
    → has one_time_id entry.public.id xs ≡ false
    → one_time_in (xs ++ entry ∷ []) ≡ set_key entry.public.id (some entry.key) (one_time_in xs)
one_time_in-snoc xs entry free =
    fun_ext λ j. rw (find-snoc one_time_id j xs entry free) (ground arith)

pub one_time_in-Picks :
    (id : ℕ) {xs ys : List OneTimePrekey} {entry : OneTimePrekey}
    → Picks (is_one_time id) xs entry ys
    → Distinct one_time_id xs
    → one_time_in ys ≡ set_key id none (one_time_in xs)
one_time_in-Picks id picked distinct =
    fun_ext λ j. rw (find-Picks_rest one_time_id id j picked distinct) (ground arith)

pub signed_in-snoc :
    (id : ℕ) (key next : DhKeyPair) (signed : SignedPrekey) (xs : List (SignedPrekey × DhKeyPair))
    → has retired_id signed.key_id xs ≡ false
    → signed_in id next (xs ++ (signed, key) ∷ [])
      ≡ set_key id (some next) (signed_in signed.key_id key xs)
signed_in-snoc id key next signed xs free =
    fun_ext λ j. rw (find-snoc retired_id j xs (signed, key) free) (ground arith)

-- Whether an identifier is in use.
pub signed_in-is_some :
    (current id : ℕ) (key : DhKeyPair) (xs : List (SignedPrekey × DhKeyPair))
    → is_some (signed_in current key xs id) ≡ (current == id || any (is_retired id) xs)
signed_in-is_some current id key xs = elim (Bool-cases (has retired_id id xs)) [
  | inl taken ↦
      let (entry, found) = find_present retired_id id xs taken in rw (taken, found) (ground arith)
  | inr free ↦ rw (free, find_absent retired_id id xs free) (ground arith)
]

pub signed_in-Picks :
    (current id : ℕ) (key : DhKeyPair) {xs ys : List (SignedPrekey × DhKeyPair)}
    {entry : SignedPrekey × DhKeyPair}
    → Picks (is_retired id) xs entry ys
    → Distinct retired_id xs
    → (id == current) ≡ false
    → signed_in current key ys ≡ set_key id none (signed_in current key xs)
signed_in-Picks current id key picked distinct other =
    fun_ext λ j. rw (find-Picks_rest retired_id id j picked distinct) (ground arith)

pub not_in_use :
    (current id : ℕ) (e : SignedPrekey × DhKeyPair) (xs : List (SignedPrekey × DhKeyPair))
    → retired_id e ≡ current
    → (current == id || any (is_retired id) xs) ≡ false
    → has retired_id id (xs ++ e ∷ []) ≡ false
unfolding any
not_in_use current id e xs same free = rw (has-append retired_id id xs (e ∷ [])) (ground arith)

pub find_retired-find :
    (id : ℕ) (xs : List (SignedPrekey × DhKeyPair))
    → find_retired id xs
      ≡ Option.map (λ (e : SignedPrekey × DhKeyPair). e.1) (find retired_id id xs)
unfolding find_retired
find_retired-find id [] = refl
find_retired-find id (x ∷ xs) = ground (arith, find_retired-find id xs)

pub All-find {ℓ} :
    {A : Type ℓ} (key : A → ℕ) (P : A → Type 0) (id : ℕ) (xs : List A) {e : A}
    → All P xs
    → find key id xs ≡ some e
    → P e
All-find key P id [] h found = cc
All-find key P id (x ∷ xs) h found = elim (Bool-cases (key x == id)) [
  | inl hit ↦ let same : some x ≡ some _ = rw hit at found in subst P (cc) h.0
  | inr miss ↦ All-find key P id xs h.1 (rw miss at found)
]
