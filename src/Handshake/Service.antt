-- ===== src/Handshake/Service.antt =====
-- handshake.rs: any sequence of calls on a responder's material.
use mef.Prelude.{ℕ, ◌≡◌, refl, List, [], ◌∷◌}
use mef.Error.{Result}
use mef.Crypto.Primitives.{Primitives}
use mef.Handshake.Authenticated.{AuthenticatedHandshake}
use mef.Handshake.Message.{InitiatorHandshake}
use mef.Handshake.Material.{
  ResponderPrekeyMaterial, add_one_time_prekey, rotate_signed_prekey, retire_signed_prekey,
}
use mef.Handshake.Agreement.{accept}
use mef.Handshake.Store.{PrekeyStore, add_key, rotate_key, retire_key, accept_message}
use mef.Handshake.Valid.{IsMaterial, view}
use mef.Handshake.Refines.{
  add_one_time_prekey-Refines, rotate_signed_prekey-Refines, retire_signed_prekey-Refines,
}
use mef.Handshake.Accepts.{accept-Refines}

pub data Call : Type 0 where
  add : ℕ → Call
  rotate : ℕ → ℕ → Call
  retire : ℕ → Call
  respond : InitiatorHandshake → Call

-- What a caller gets back.
pub data Reply : Type 0 where
  done : Result (Unit {0}) → Reply
  session : Result AuthenticatedHandshake → Reply

abbrev answer {ℓ} :
    {S : Type ℓ} {A : Type 0} → (Result A → Reply) → Result A × S × ℕ → Reply × S × ℕ
answer reply (r, s, g) = (reply r, s, g)

unfoldable pub perform :
    Primitives → Call → ResponderPrekeyMaterial → ℕ → Reply × ResponderPrekeyMaterial × ℕ
perform p (add id) m g = answer done (add_one_time_prekey p id m g)
perform p (rotate id expires_at) m g = answer done (rotate_signed_prekey p id expires_at m g)
perform p (retire id) m g = answer done (retire_signed_prekey id m g)
perform p (respond message) m g = answer session (accept p message m g)

-- The same call on the store, which knows no expiry.
unfoldable pub promise : Primitives → Call → PrekeyStore → ℕ → Reply × PrekeyStore × ℕ
promise p (add id) s g = answer done (add_key p id s g)
promise p (rotate id expires_at) s g = answer done (rotate_key p id s g)
promise p (retire id) s g = answer done (retire_key id s g)
promise p (respond message) s g = answer session (accept_message p message s g)

abbrev pub history {ℓ} :
    {S : Type ℓ} → (Call → S → ℕ → Reply × S × ℕ) → List Call → S → ℕ → List Reply × S × ℕ
history step [] s g = ([], s, g)
history step (call ∷ calls) s g =
    let now = step call s g in
    let later = history step calls now.1 now.2 in (now.0 ∷ later.0, later.1, later.2)

perform-promise :
    (p : Primitives) (call : Call) (m : ResponderPrekeyMaterial) (g : ℕ)
    → IsMaterial p m
    → (promise p call (view m) g
        ≡ ((perform p call m g).0, view (perform p call m g).1, (perform p call m g).2))
      × IsMaterial p (perform p call m g).1
unfolding perform promise
perform-promise p (add id) m g v =
    let (same, kept) = add_one_time_prekey-Refines p m v g id in (rw same refl, kept)
perform-promise p (rotate id expires_at) m g v =
    let (same, kept) = rotate_signed_prekey-Refines p m v g id expires_at in (rw same refl, kept)
perform-promise p (retire id) m g v =
    let (same, kept) = retire_signed_prekey-Refines p m v g id in (rw same refl, kept)
perform-promise p (respond message) m g v =
    let (same, kept) = accept-Refines p m v g message in (rw same refl, kept)

-- From a valid material any sequence of calls replies as the store does, makes as many requests to the
-- generator, and ends in a valid material whose view is what the store ends in.
pub history-Refines :
    (p : Primitives) (calls : List Call) (m : ResponderPrekeyMaterial) (g : ℕ)
    → IsMaterial p m
    → (history (promise p) calls (view m) g ≡ (
      (history (perform p) calls m g).0,
      view (history (perform p) calls m g).1,
      (history (perform p) calls m g).2,
    ))
      × IsMaterial p (history (perform p) calls m g).1
history-Refines p [] m g v = (refl, v)
history-Refines p (call ∷ calls) m g v =
    let (now, kept) = perform-promise p call m g v in
    let (later, valid) =
      history-Refines p calls (perform p call m g).1 (perform p call m g).2 kept in
    (rw (now, later) refl, valid)
