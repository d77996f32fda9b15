-- ===== src/Handshake/Once.antt =====
-- handshake.rs: a one-time prekey answers one message.
use mef.Prelude.{
  ℕ, ◌≡◌, ◌≢◌, ◌⊎◌, refl, ap, ◌∙◌, inl, inr, Option, none, some, List, [], ◌∷◌, All, arith, ◌==◌,
  Bool-cases, Option-cases,
}
use mef.Error.{Result, ok, err, panic, ok_or, ratchet_state_mismatch, invalid_state, fail_if}
use mef.Effect.{M, lift, ◌>>=◌}
use mef.Vec.Laws.{position-cases}
use mef.Vec.Keyed.{find-Picks}
use mef.Crypto.Primitives.{Primitives}
use mef.Keys.Dh.{DhKeyPair, diffie_hellman, from_secret}
use mef.Handshake.Authenticated.{AuthenticatedHandshake}
use mef.Handshake.Message.{InitiatorHandshake, verify_identity}
use mef.Handshake.Material.{ResponderPrekeyMaterial, is_one_time, local_public}
use mef.Handshake.Agreement.{
  find_retired, accept, signed_prekey_for, one_time_index, derive_handshake_values,
}
use mef.Handshake.Store.{
  PrekeyStore, is_some, add_key, rotate_key, retire_key, retained, accept_message, requested,
  requested_dh, forget,
}
use mef.Handshake.Valid.{IsMaterial, view, one_time_id}
use mef.Handshake.Refines.{generate-cases}
use mef.Handshake.Accepts.{accept-Refines}
use mef.Handshake.Serves.{state-lift}
use mef.Handshake.Service.{
  Call, add, rotate, retire, respond, perform, promise, history, history-Refines,
}

-- The call does not add a one-time prekey of the identifier.
abbrev pub Avoids : ℕ → Call → Type 0
Avoids id (add j) = id ≢ j
Avoids id call = Unit {0}

-- No key answers to the identifier.
abbrev pub IsGone : ℕ → PrekeyStore → Type 0
IsGone id s = s.one_time id ≡ none

forget-none :
    (wanted : Option ℕ) (keys : ℕ → Option DhKeyPair) (id : ℕ)
    → keys id ≡ none
    → forget wanted keys id ≡ none
forget-none none keys id gone = gone
forget-none (some j) keys id gone = ground arith

module _ (p : Primitives) (s : PrekeyStore) (g id : ℕ) (gone : IsGone id s) where
  add_key-IsGone : (j : ℕ) → id ≢ j → IsGone id (add_key p j s g).1
  unfolding add_key
  add_key-IsGone j other = elim (Bool-cases (is_some (s.one_time j))) [
    | inl taken ↦ rw taken gone
    | inr free ↦ elim (generate-cases p g) [
      | inl dry ↦ rw (free, dry) gone
      | inr (key, made, pair) ↦ rw (free, made) (ground arith)
    ]
  ]

  rotate_key-IsGone : (j : ℕ) → IsGone id (rotate_key p j s g).1
  unfolding rotate_key
  rotate_key-IsGone j =
      state-lift (IsGone id) s g (fail_if (is_some (s.signed j)) invalid_state) _ gone λ _.
        elim (generate-cases p g) [ inl dry ↦ rw dry gone | inr (key, made, pair) ↦ rw made gone ]

  retire_key-IsGone : (j : ℕ) → IsGone id (retire_key j s g).1
  unfolding retire_key
  retire_key-IsGone j =
      state-lift (IsGone id) s g (ok_or (retained s j) invalid_state) _ gone (λ _. gone)

-- Where a message is accepted, its one-time prekey is forgotten.
abbrev Forgets : Option ℕ → PrekeyStore → Result AuthenticatedHandshake × PrekeyStore × ℕ → Type 0
Forgets wanted s (ok h, s', g) = s' ≡ record s { one_time = forget wanted s.one_time }
Forgets wanted s (err e, s', g) = s' ≡ s
Forgets wanted s (panic, s', g) = s' ≡ s

Forgets-lift :
    {B : Type 0} (wanted : Option ℕ) (s : PrekeyStore) (g : ℕ) (r : Result B)
    (rest : B → M PrekeyStore AuthenticatedHandshake)
    → ((x : B) → Forgets wanted s (rest x s g))
    → Forgets wanted s ((lift r >>= rest) s g)
Forgets-lift wanted s g (ok x) rest k = k x
Forgets-lift wanted s g (err e) rest k = refl
Forgets-lift wanted s g panic rest k = refl

accept_message-Forgets :
    (p : Primitives) (s : PrekeyStore) (g : ℕ) (message : InitiatorHandshake)
    → Forgets message.one_time_prekey_id s (accept_message p message s g)
unfolding accept_message
accept_message-Forgets p s g message =
    let wanted = message.one_time_prekey_id in
    let ephemeral = message.initiator_ephemeral in
    Forgets-lift wanted s g (verify_identity p message.initiator_identity) _ λ _.
      Forgets-lift wanted s g (ok_or (s.signed message.signed_prekey_id) ratchet_state_mismatch) _
        λ key. Forgets-lift wanted s g (requested s wanted) _ λ one_time.
          Forgets-lift wanted s g (diffie_hellman p key.secret message.initiator_identity.dh) _
            λ dh1.
              Forgets-lift wanted s g (diffie_hellman p s.identity.dh.secret ephemeral) _ λ dh2.
                Forgets-lift wanted s g (diffie_hellman p key.secret ephemeral) _ λ dh3.
                  Forgets-lift wanted s g (requested_dh p ephemeral one_time) _ λ dh4.
                    Forgets-lift wanted s g
                      (derive_handshake_values p message (local_public p s.identity) dh1 dh2 dh3
                        dh4)
                      _ λ derived. refl

-- After any outcome the identifier that was gone is gone.
Forgets-IsGone :
    (wanted : Option ℕ) (s : PrekeyStore) (out : Result AuthenticatedHandshake × PrekeyStore × ℕ)
    (id : ℕ)
    → Forgets wanted s out
    → IsGone id s
    → IsGone id out.1
Forgets-IsGone wanted s (ok h, s', g) id left gone = rw left (forget-none wanted s.one_time id gone)
Forgets-IsGone wanted s (err e, s', g) id left gone = rw left gone
Forgets-IsGone wanted s (panic, s', g) id left gone = rw left gone

promise-IsGone :
    (p : Primitives) (s : PrekeyStore) (g id : ℕ) (call : Call)
    → Avoids id call
    → IsGone id s
    → IsGone id (promise p call s g).1
unfolding promise
promise-IsGone p s g id (add j) avoids gone = add_key-IsGone p s g id gone j avoids
promise-IsGone p s g id (rotate j expires_at) avoids gone = rotate_key-IsGone p s g id gone j
promise-IsGone p s g id (retire j) avoids gone = retire_key-IsGone p s g id gone j
promise-IsGone p s g id (respond message) avoids gone =
    Forgets-IsGone message.one_time_prekey_id s (accept_message p message s g) id
      (accept_message-Forgets p s g message) gone

history-IsGone :
    (p : Primitives) (calls : List Call) (s : PrekeyStore) (g id : ℕ)
    → All (Avoids id) calls
    → IsGone id s
    → IsGone id (history (promise p) calls s g).1
history-IsGone p [] s g id avoids gone = gone
history-IsGone p (call ∷ calls) s g id avoids gone =
    history-IsGone p calls (promise p call s g).1 (promise p call s g).2 id avoids.1
      (promise-IsGone p s g id call avoids.0 gone)

signed_prekey_for-cases :
    (p : Primitives) (m : ResponderPrekeyMaterial) (id : ℕ)
    → (signed_prekey_for p m id ≡ err ratchet_state_mismatch)
      ⊎ ((key : DhKeyPair) × (signed_prekey_for p m id ≡ ok key))
unfolding signed_prekey_for
signed_prekey_for-cases p m id = elim (Bool-cases (id == m.signed_record.key_id)) [
  | inl now ↦ inr (from_secret p m.signed_prekey.secret, rw now refl)
  | inr before ↦ elim (Option-cases (find_retired id m.retired_signed_prekeys)) [
    | inl missing ↦ inl (rw (before, missing) refl)
    | inr (key, found) ↦ inr (from_secret p key.secret, rw (before, found) refl)
  ]
]

one_time_index-gone :
    (m : ResponderPrekeyMaterial) (id : ℕ)
    → IsGone id (view m)
    → one_time_index m (some id) ≡ err ratchet_state_mismatch
unfolding one_time_index
one_time_index-gone m id gone = elim (position-cases (is_one_time id) m.one_time_prekeys) [
  | inl missing ↦ rw missing refl
  | inr (i, found, f) ↦
      let held = find-Picks one_time_id id f.picked in let lost = rw held at gone in cc
]

gone-accept :
    (p : Primitives) (m : ResponderPrekeyMaterial) (k id : ℕ) (message : InitiatorHandshake)
    → IsGone id (view m)
    → message.one_time_prekey_id ≡ some id
    → verify_identity p message.initiator_identity ≡ ok tt
    → accept p message m k ≡ (err ratchet_state_mismatch, m, k)
unfolding accept
gone-accept p m k id message gone asks verified =
    elim (signed_prekey_for-cases p m message.signed_prekey_id) [
      | inl unknown ↦ rw (verified, unknown) refl
      | inr (key, known) ↦ rw (verified, known, asks, one_time_index-gone m id gone) refl
    ]

-- Once a message that asks for a one-time prekey is accepted, any message that asks for it, the same
-- one included, is refused with RatchetStateMismatch and changes nothing, after any calls in between
-- that do not add a prekey of its identifier. The material was valid, and the later message's
-- identity verifies.
pub accept-once :
    (p : Primitives) (m m' : ResponderPrekeyMaterial) (g g' j k id : ℕ) (calls : List Call)
    (message later : InitiatorHandshake) (h : AuthenticatedHandshake)
    → IsMaterial p m
    → accept p message m g ≡ (ok h, m', g')
    → message.one_time_prekey_id ≡ some id
    → All (Avoids id) calls
    → later.one_time_prekey_id ≡ some id
    → verify_identity p later.initiator_identity ≡ ok tt
    → accept p later (history (perform p) calls m' j).1 k
      ≡ (err ratchet_state_mismatch, (history (perform p) calls m' j).1, k)
accept-once p m m' g g' j k id calls message later h v accepted asked avoids asks verified =
    let (refined, kept) = accept-Refines p m v g message in
    let promised : accept_message p message (view m) g ≡ (ok h, view m', g') =
      rw accepted at refined in
    let v' : IsMaterial p m' = rw accepted at kept in
    let left : Forgets message.one_time_prekey_id (view m) (ok h, view m', g') =
      rw promised at (accept_message-Forgets p (view m) g message) in
    let gone : IsGone id (view m') = ap (λ s. s.one_time id) left ∙ rw asked (ground arith) in
    let (same, _) = history-Refines p calls m' j v' in
    let gone' = history-IsGone p calls (view m') j id avoids gone in
    gone-accept p (history (perform p) calls m' j).1 k id later
      (rw (ap (λ out. out.1) same) at gone') asks verified
