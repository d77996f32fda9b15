-- ===== src/Handshake/Atomicity.antt =====
-- handshake.rs: what `accept` leaves behind, after a success and after an error.
use mef.Prelude.{
  ℕ, ◌≡◌, refl, ◌≢◌, ◌⊎◌, arith, to_be, length, inl, inr, Option, none, some, List, [], ◌∷◌, ◌++◌,
  Bytes,
}
use mef.Error.{Result, ok, err, panic, ratchet_state_mismatch}
use mef.Effect.{M, lift, ◌>>=◌}
use mef.Vec.Laws.{position-cases}
use mef.Crypto.Primitives.{Primitives}
use mef.Crypto.Kdf.{blake3_id, derive_secret, feed_parts, id_prefix}
use mef.Keys.Dh.{DhPublicKey, diffie_hellman}
use mef.Keys.Identity.{verify}
use mef.Handshake.Message.{IdentityDhPublic, InitiatorHandshake, verify_identity}
use mef.Handshake.Material.{ResponderPrekeyMaterial, OneTimePrekey, is_one_time, local_public}
use mef.Handshake.Agreement.{
  accept, signed_prekey_for, one_time_index, accepted_dh, consume, derive_handshake_values,
}

-- After a success the material differs in its one-time prekeys at most; after an error it is as it
-- was. No request is made to the generator, and no index is out of bounds.
abbrev pub Atomic {ℓ} :
    {A : Type ℓ} → ResponderPrekeyMaterial → ℕ → Result A × ResponderPrekeyMaterial × ℕ → Type 0
Atomic m g (ok h, m', g') = (m' ≡ record m { one_time_prekeys = m'.one_time_prekeys }) × (g' ≡ g)
Atomic m g (err e, m', g') = (m' ≡ m) × (g' ≡ g)
Atomic m g (panic, m', g') = ⊥

verify_identity-ne-panic : (p : Primitives) (i : IdentityDhPublic) → verify_identity p i ≢ panic
unfolding verify_identity verify
verify_identity-ne-panic p i = ground arith

diffie_hellman-ne-panic : (p : Primitives) (a b : Bytes) → diffie_hellman p a b ≢ panic
unfolding diffie_hellman
diffie_hellman-ne-panic p a b = ground arith

feed_parts-ne-panic : (parts : List Bytes) (fed : Bytes) → feed_parts fed parts ≢ panic
unfolding feed_parts
feed_parts-ne-panic [] fed = ground arith
feed_parts-ne-panic (part ∷ parts) fed =
    ground (arith, feed_parts-ne-panic parts (fed ++ (to_be 8 (length part) ++ part)))

pub blake3_id-ne-panic :
    (p : Primitives) (label : Bytes) (parts : List Bytes) → blake3_id p label parts ≢ panic
unfolding blake3_id
blake3_id-ne-panic p label parts = ground (arith, feed_parts-ne-panic parts (id_prefix label))

pub derive_secret-ne-panic :
    (p : Primitives) (salt label input : Bytes) → derive_secret p salt label input ≢ panic
unfolding derive_secret
derive_secret-ne-panic p salt label input = ground arith

derive_handshake_values-ne-panic :
    (p : Primitives) (message : InitiatorHandshake) (i : IdentityDhPublic) (dh1 dh2 dh3 : Bytes)
    (dh4 : Option Bytes)
    → derive_handshake_values p message i dh1 dh2 dh3 dh4 ≢ panic
unfolding derive_handshake_values
derive_handshake_values-ne-panic p message i dh1 dh2 dh3 dh4 =
    grind (arith, blake3_id-ne-panic, derive_secret-ne-panic)

signed_prekey_for-ne-panic :
    (p : Primitives) (m : ResponderPrekeyMaterial) (id : ℕ) → signed_prekey_for p m id ≢ panic
unfolding signed_prekey_for
signed_prekey_for-ne-panic p m id = ground arith

Atomic-lift :
    {A B : Type 0} (m : ResponderPrekeyMaterial) (g : ℕ) (r : Result B)
    (rest : B → M ResponderPrekeyMaterial A)
    → r ≢ panic
    → ((x : B) → Atomic m g (rest x m g))
    → Atomic m g ((lift r >>= rest) m g)
Atomic-lift m g (ok x) rest h k = k x
Atomic-lift m g (err e) rest h k = (refl, refl)
Atomic-lift m g panic rest h k = absurd (h refl)

-- What `accept` finds for the one-time prekey of a message.
record Chosen (m : ResponderPrekeyMaterial) (g : ℕ) (wanted : Option ℕ) : Type 0 where
  index : Option ℕ
  rest : List OneTimePrekey
  at : one_time_index m wanted ≡ ok index
  agreed : (p : Primitives) (ephemeral : DhPublicKey) → accepted_dh p m ephemeral index ≢ panic
  consumed : consume index m g ≡ (ok tt, record m { one_time_prekeys = rest }, g)

one_time-cases :
    (m : ResponderPrekeyMaterial) (g : ℕ) (wanted : Option ℕ)
    → (one_time_index m wanted ≡ err ratchet_state_mismatch) ⊎ Chosen m g wanted
unfolding one_time_index accepted_dh consume
one_time-cases m g none = inr (record {
  index = none;
  rest = m.one_time_prekeys;
  at = refl;
  agreed = λ p ephemeral. ground arith;
  consumed = refl;
})
one_time-cases m g (some id) = elim (position-cases (is_one_time id) m.one_time_prekeys) [
  | inl missing ↦ inl (rw missing refl)
  | inr (i, found, f) ↦ inr (record {
    index = some i;
    rest = f.rest;
    at = rw found refl;
    agreed = λ p ephemeral.
        rw f.read (ground (arith, diffie_hellman-ne-panic p f.elem.key.secret ephemeral));
    consumed = rw f.removed refl;
  })
]

-- Accepting a message ends without an index out of bounds and without a request to the generator.
-- When it fails the material is unchanged; when it succeeds the material differs in its one-time
-- prekeys at most.
pub accept-Atomic :
    (p : Primitives) (message : InitiatorHandshake) (m : ResponderPrekeyMaterial) (g : ℕ)
    → Atomic m g (accept p message m g)
unfolding accept
accept-Atomic p message m g =
    Atomic-lift m g (verify_identity p message.initiator_identity) _
      (verify_identity-ne-panic p message.initiator_identity)
      λ _.
        Atomic-lift m g (signed_prekey_for p m message.signed_prekey_id) _
          (signed_prekey_for-ne-panic p m message.signed_prekey_id)
          λ key. elim (one_time-cases m g message.one_time_prekey_id) [
            | inl missing ↦ rw missing (refl, refl)
            | inr c ↦ rw c.at (
                Atomic-lift m g (diffie_hellman p key.secret message.initiator_identity.dh) _
                  (diffie_hellman-ne-panic p _ _)
                  λ dh1.
                    Atomic-lift m g
                      (diffie_hellman p m.identity.dh.secret message.initiator_ephemeral) _
                      (diffie_hellman-ne-panic p _ _)
                      λ dh2.
                        Atomic-lift m g (diffie_hellman p key.secret message.initiator_ephemeral) _
                          (diffie_hellman-ne-panic p _ _)
                          λ dh3.
                            Atomic-lift m g (accepted_dh p m message.initiator_ephemeral c.index) _
                              (c.agreed p message.initiator_ephemeral)
                              λ dh4.
                                Atomic-lift m g
                                  (derive_handshake_values p message (local_public p m.identity) dh1
                                    dh2 dh3 dh4)
                                  _
                                  (derive_handshake_values-ne-panic p message
                                    (local_public p m.identity) dh1 dh2 dh3 dh4)
                                  λ derived. rw c.consumed (refl, refl))
          ]
