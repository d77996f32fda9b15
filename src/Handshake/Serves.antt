-- ===== src/Handshake/Serves.antt =====
-- handshake.rs: a bundle that was handed out, and the calls after which its keys still answer.
use mef.Prelude.{
  ℕ, ◌≡◌, ◌≢◌, refl, inl, inr, false, Option, none, some, List, [], ◌∷◌, All, arith, ==_refl,
  Bool-cases,
}
use mef.Error.{Result, ok, err, panic, ok_or, ratchet_state_mismatch, invalid_state}
use mef.Effect.{M, lift, ◌>>=◌}
use mef.Crypto.Primitives.{Primitives}
use mef.Keys.Dh.{DhKeyPair, diffie_hellman}
use mef.Handshake.Message.{InitiatorHandshake, verify_identity}
use mef.Handshake.Bundle.{OneTimePrekeyPublic, ResponderPrekeyBundle}
use mef.Handshake.Material.{
  ResponderPrekeyMaterial, OneTimePrekey, bundle, first_offer, local_public,
}
use mef.Handshake.Agreement.{offered_id, derive_handshake_values}
use mef.Handshake.Store.{
  PrekeyStore, set_key, is_some, add_key, rotate_key, retire_key, accept_message, forget, retained,
  requested, requested_dh,
}
use mef.Handshake.Valid.{IsMaterial, IsPair, IsOffer, one_time_in, view}
use mef.Handshake.Service.{Call, add, rotate, retire, respond, promise, history}
use mef.Handshake.Refines.{generate-cases}

-- The store has the secret of the offered one-time prekey.
abbrev pub Offers : Primitives → (ℕ → Option DhKeyPair) → Option OneTimePrekeyPublic → Type 0
Offers p keys none = Unit {0}
Offers p keys (some prekey) =
    (key : DhKeyPair) × (keys prekey.id ≡ some key) × IsPair p key × (key.public ≡ prekey.public)

pub record Serves (p : Primitives) (b : ResponderPrekeyBundle) (s : PrekeyStore) : Type 0 where
  pub same_identity : b.identity ≡ local_public p s.identity
  pub dh_pair : IsPair p s.identity.dh
  pub key : DhKeyPair
  pub held : s.signed b.signed_prekey.key_id ≡ some key
  pub pair : IsPair p key
  pub same_key : key.public ≡ b.signed_prekey.public
  pub offers : Offers p s.one_time b.one_time_prekey

first_offer-Offers :
    (p : Primitives) (entries : List OneTimePrekey)
    → All (IsOffer p) entries
    → Offers p (one_time_in entries) (first_offer entries)
first_offer-Offers p [] h = tt
first_offer-Offers p (entry ∷ entries) h =
    (entry.key, rw (==_refl entry.public.id) refl, h.0.0, ground arith)

-- A material serves the bundle that it hands out.
pub bundle-Serves :
    (p : Primitives) (m : ResponderPrekeyMaterial) → IsMaterial p m → Serves p (bundle p m) (view m)
unfolding bundle
bundle-Serves p m v = record {
  same_identity = refl;
  dh_pair = v.local.dh_pair;
  key = m.signed_prekey;
  held = rw (==_refl m.signed_record.key_id) refl;
  pair = v.current.pair;
  same_key = ground arith;
  offers = first_offer-Offers p m.one_time_prekeys v.offers;
}

-- The two do not ask for one one-time prekey.
abbrev pub Apart : Option ℕ → Option ℕ → Type 0
Apart (some i) (some j) = i ≢ j
Apart i j = Unit {0}

-- The call takes no key of the bundle away.
abbrev pub Keeps : ResponderPrekeyBundle → Call → Type 0
Keeps b (add id) = Unit {0}
Keeps b (rotate id expires_at) = Unit {0}
Keeps b (retire id) = id ≢ b.signed_prekey.key_id
Keeps b (respond message) = Apart (offered_id b.one_time_prekey) message.one_time_prekey_id

module _ (p : Primitives) (b : ResponderPrekeyBundle) (s : PrekeyStore) (v : Serves p b s) where
  with_one_time :
      (keys : ℕ → Option DhKeyPair)
      → Offers p keys b.one_time_prekey
      → Serves p b (record s { one_time = keys })
  with_one_time keys offers = record {
    same_identity = v.same_identity;
    dh_pair = v.dh_pair;
    key = v.key;
    held = v.held;
    pair = v.pair;
    same_key = v.same_key;
    offers = offers;
  }

  with_signed :
      (current : ℕ) (keys : ℕ → Option DhKeyPair)
      → keys b.signed_prekey.key_id ≡ some v.key
      → Serves p b (record s { current = current; signed = keys })
  with_signed current keys held = record {
    same_identity = v.same_identity;
    dh_pair = v.dh_pair;
    key = v.key;
    held = held;
    pair = v.pair;
    same_key = v.same_key;
    offers = v.offers;
  }

Offers-set_key :
    (p : Primitives) (keys : ℕ → Option DhKeyPair) (offer : Option OneTimePrekeyPublic) (id : ℕ)
    (key : Option DhKeyPair)
    → Apart (offered_id offer) (some id)
    → Offers p keys offer
    → Offers p (set_key id key keys) offer
Offers-set_key p keys none id key apart h = tt
Offers-set_key p keys (some prekey) id key apart (k, held, pair, same) =
    (k, ground arith, pair, same)

-- Adding a prekey cannot replace the offered one.
Offers-Apart :
    (p : Primitives) (keys : ℕ → Option DhKeyPair) (offer : Option OneTimePrekeyPublic) (id : ℕ)
    → is_some (keys id) ≡ false
    → Offers p keys offer
    → Apart (offered_id offer) (some id)
Offers-Apart p keys none id free h = tt
Offers-Apart p keys (some prekey) id free (k, held, pair, same) =
    λ same_id. let taken : keys id ≡ some k = rw same_id at held in cc

Offers-forget :
    (p : Primitives) (keys : ℕ → Option DhKeyPair) (offer : Option OneTimePrekeyPublic)
    (wanted : Option ℕ)
    → Apart (offered_id offer) wanted
    → Offers p keys offer
    → Offers p (forget wanted keys) offer
Offers-forget p keys offer none apart h = h
Offers-forget p keys offer (some id) apart h = Offers-set_key p keys offer id none apart h

signed_kept :
    (keys : ℕ → Option DhKeyPair) (id j : ℕ) (key : DhKeyPair) (next : Option DhKeyPair)
    → id ≢ j
    → keys j ≡ some key
    → set_key id next keys j ≡ some key
signed_kept keys id j key next other held = ground arith

signed_apart :
    (keys : ℕ → Option DhKeyPair) (id j : ℕ) (key : DhKeyPair)
    → is_some (keys id) ≡ false
    → keys j ≡ some key
    → id ≢ j
signed_apart keys id j key free held = λ same. let taken : keys id ≡ some key = rw same held in cc

-- A fallible step before one that leaves a state with the property.
pub state-lift :
    {A B : Type 0} (P : PrekeyStore → Type 0) (s : PrekeyStore) (g : ℕ) (r : Result B)
    (rest : B → M PrekeyStore A)
    → P s
    → ((x : B) → P (rest x s g).1)
    → P ((lift r >>= rest) s g).1
state-lift P s g (ok x) rest h k = k x
state-lift P s g (err e) rest h k = h
state-lift P s g panic rest h k = h

module _ (p : Primitives) (b : ResponderPrekeyBundle) (s : PrekeyStore) (g : ℕ)
    (v : Serves p b s) where
  add_key-Serves : (id : ℕ) → Serves p b (add_key p id s g).1
  unfolding add_key
  add_key-Serves id = elim (Bool-cases (is_some (s.one_time id))) [
    | inl taken ↦ rw taken v
    | inr free ↦ elim (generate-cases p g) [
      | inl dry ↦ rw (free, dry) v
      | inr (key, made, pair) ↦
          let apart = Offers-Apart p s.one_time b.one_time_prekey id free v.offers in
          rw (free, made)
            (with_one_time p b s v (set_key id (some key) s.one_time)
              (Offers-set_key p s.one_time b.one_time_prekey id (some key) apart v.offers))
    ]
  ]

  rotate_key-Serves : (id : ℕ) → Serves p b (rotate_key p id s g).1
  unfolding rotate_key
  rotate_key-Serves id = elim (Bool-cases (is_some (s.signed id))) [
    | inl taken ↦ rw taken v
    | inr free ↦ elim (generate-cases p g) [
      | inl dry ↦ rw (free, dry) v
      | inr (key, made, pair) ↦
          let apart = signed_apart s.signed id b.signed_prekey.key_id v.key free v.held in
          rw (free, made)
            (with_signed p b s v id (set_key id (some key) s.signed)
              (signed_kept s.signed id b.signed_prekey.key_id v.key (some key) apart v.held))
    ]
  ]

  retire_key-Serves : (id : ℕ) → id ≢ b.signed_prekey.key_id → Serves p b (retire_key id s g).1
  unfolding retire_key
  retire_key-Serves id other =
      state-lift (Serves p b) s g (ok_or (retained s id) invalid_state) _ v λ _.
        with_signed p b s v s.current (set_key id none s.signed)
          (signed_kept s.signed id b.signed_prekey.key_id v.key none other v.held)

  accept_message-Serves :
      (message : InitiatorHandshake)
      → Apart (offered_id b.one_time_prekey) message.one_time_prekey_id
      → Serves p b (accept_message p message s g).1
  unfolding accept_message
  accept_message-Serves message apart =
      state-lift (Serves p b) s g (verify_identity p message.initiator_identity) _ v λ _.
        state-lift (Serves p b) s g
          (ok_or (s.signed message.signed_prekey_id) ratchet_state_mismatch) _ v
          λ key.
            state-lift (Serves p b) s g (requested s message.one_time_prekey_id) _ v λ one_time.
              state-lift (Serves p b) s g
                (diffie_hellman p key.secret message.initiator_identity.dh) _ v
                λ dh1.
                  state-lift (Serves p b) s g
                    (diffie_hellman p s.identity.dh.secret message.initiator_ephemeral) _ v
                    λ dh2.
                      state-lift (Serves p b) s g
                        (diffie_hellman p key.secret message.initiator_ephemeral) _ v
                        λ dh3.
                          state-lift (Serves p b) s g
                            (requested_dh p message.initiator_ephemeral one_time) _ v
                            λ dh4.
                              state-lift (Serves p b) s g
                                (derive_handshake_values p message (local_public p s.identity) dh1
                                  dh2 dh3 dh4)
                                _ v
                                λ derived.
                                  with_one_time p b s v
                                    (forget message.one_time_prekey_id s.one_time)
                                    (Offers-forget p s.one_time b.one_time_prekey
                                      message.one_time_prekey_id apart v.offers)

  promise-Serves : (call : Call) → Keeps b call → Serves p b (promise p call s g).1
  unfolding promise
  promise-Serves (add id) keeps = add_key-Serves id
  promise-Serves (rotate id expires_at) keeps = rotate_key-Serves id
  promise-Serves (retire id) keeps = retire_key-Serves id keeps
  promise-Serves (respond message) keeps = accept_message-Serves message keeps

pub history-Serves :
    (p : Primitives) (b : ResponderPrekeyBundle) (calls : List Call) (s : PrekeyStore) (g : ℕ)
    → All (Keeps b) calls
    → Serves p b s
    → Serves p b (history (promise p) calls s g).1
history-Serves p b [] s g keeps v = v
history-Serves p b (call ∷ calls) s g keeps v =
    history-Serves p b calls (promise p call s g).1 (promise p call s g).2 keeps.1
      (promise-Serves p b s g v call keeps.0)
