-- ===== src/Handshake/Accepts.antt =====
-- handshake.rs: `accept` does what the store promises.
use mef.Prelude.{
  ℕ, ◌≡◌, refl, ◌⊎◌, inl, inr, Option, none, some, List, ◌==◌, Bool-cases, Option-cases,
}
use mef.Error.{Result, ok, err, panic, ok_or, ratchet_state_mismatch}
use mef.Effect.{M, lift, ◌>>=◌}
use mef.Vec.Laws.{position-cases, All-Picks}
use mef.Vec.Keyed.{find, Distinct-Picks, find-Picks, position-none}
use mef.Crypto.Primitives.{Primitives}
use mef.Keys.Dh.{DhKeyPair, DhPublicKey, diffie_hellman}
use mef.Handshake.Message.{InitiatorHandshake, verify_identity}
use mef.Handshake.Material.{ResponderPrekeyMaterial, OneTimePrekey, is_one_time, local_public}
use mef.Handshake.Agreement.{
  accept, signed_prekey_for, one_time_index, accepted_dh, consume, derive_handshake_values,
}
use mef.Handshake.Store.{PrekeyStore, accept_message, requested, requested_dh, forget}
use mef.Handshake.Valid.{IsMaterial, IsOffer, IsRetired, one_time_id, retired_id, view, one_time_in}
use mef.Handshake.Lookup.{find_retired-find, All-find, one_time_in-Picks}
use mef.Handshake.Refines.{Refines, from_secret-pair, with_offers}

-- A fallible step that both take alike.
Refines-lift :
    {A B : Type 0} (p : Primitives) (m : ResponderPrekeyMaterial) (g : ℕ) (r : Result B)
    (call : B → M ResponderPrekeyMaterial A) (promised : B → M PrekeyStore A)
    → IsMaterial p m
    → ((b : B) → Refines p (call b) (promised b) m g)
    → Refines p (lift r >>= call) (lift r >>= promised) m g
Refines-lift p m g (ok b) call promised v next = next b
Refines-lift p m g (err e) call promised v next = (refl, v)
Refines-lift p m g panic call promised v next = (refl, v)

module _ (p : Primitives) (m : ResponderPrekeyMaterial) (v : IsMaterial p m) where
  signed_prekey_for-view :
      (id : ℕ) → signed_prekey_for p m id ≡ ok_or ((view m).signed id) ratchet_state_mismatch
  unfolding signed_prekey_for
  signed_prekey_for-view id = elim (Bool-cases (id == m.signed_record.key_id)) [
    | inl now ↦ rw (now, from_secret-pair p m.signed_prekey v.current.pair) refl
    | inr before ↦
        rw (before, find_retired-find id m.retired_signed_prekeys)
          (elim (Option-cases (find retired_id id m.retired_signed_prekeys)) [
            | inl missing ↦ rw missing refl
            | inr (e, found) ↦
                let valid =
                  All-find retired_id (IsRetired p m.identity) id m.retired_signed_prekeys v.retired
                    found in
                rw (found, from_secret-pair p e.1 valid.pair) refl
          ])
  ]

  -- What `accept` finds for the one-time prekey of a message, and leaves behind.
  record Chosen (g : ℕ) (wanted : Option ℕ) : Type 0 where
    index : Option ℕ
    key : Option DhKeyPair
    rest : List OneTimePrekey
    at : one_time_index m wanted ≡ ok index
    asked : requested (view m) wanted ≡ ok key
    same_dh :
        (ephemeral : DhPublicKey) → accepted_dh p m ephemeral index ≡ requested_dh p ephemeral key
    consumed : consume index m g ≡ (ok tt, record m { one_time_prekeys = rest }, g)
    forgotten : one_time_in rest ≡ forget wanted (one_time_in m.one_time_prekeys)
    kept : IsMaterial p (record m { one_time_prekeys = rest })

  one_time-cases :
      (g : ℕ) (wanted : Option ℕ)
      → ((one_time_index m wanted ≡ err ratchet_state_mismatch)
          × (requested (view m) wanted ≡ err ratchet_state_mismatch))
        ⊎ Chosen g wanted
  unfolding one_time_index accepted_dh consume
  one_time-cases g none = inr (record {
    index = none;
    key = none;
    rest = m.one_time_prekeys;
    at = refl;
    asked = refl;
    same_dh = λ ephemeral. refl;
    consumed = refl;
    forgotten = refl;
    kept = v;
  })
  one_time-cases g (some id) = elim (position-cases (is_one_time id) m.one_time_prekeys) [
    | inl missing ↦
        let absent = position-none one_time_id id m.one_time_prekeys missing in
        inl (rw missing refl, rw absent refl)
    | inr (i, found, f) ↦ inr (record {
      index = some i;
      key = some f.elem.key;
      rest = f.rest;
      at = rw found refl;
      asked = rw (find-Picks one_time_id id f.picked) refl;
      same_dh = λ ephemeral. rw f.read refl;
      consumed = rw f.removed refl;
      forgotten = one_time_in-Picks id f.picked v.offers_distinct;
      kept =
          with_offers p m v f.rest (All-Picks (IsOffer p) f.picked v.offers)
            (Distinct-Picks one_time_id id f.picked v.offers_distinct);
    })
  ]

  pub accept-Refines :
      (g : ℕ) (message : InitiatorHandshake)
      → Refines p (accept p message) (accept_message p message) m g
  unfolding accept accept_message
  accept-Refines g message =
      Refines-lift p m g (verify_identity p message.initiator_identity) _ _ v λ _.
        rw (signed_prekey_for-view message.signed_prekey_id) (
          Refines-lift p m g
            (ok_or ((view m).signed message.signed_prekey_id) ratchet_state_mismatch) _ _ v
            λ key. elim (one_time-cases g message.one_time_prekey_id) [
              | inl (missing, absent) ↦ rw (missing, absent) (refl, v)
              | inr c ↦
                  rw (c.at, c.asked)
                    (Refines-lift p m g (diffie_hellman p key.secret message.initiator_identity.dh)
                      _ _ v
                      λ dh1.
                        Refines-lift p m g
                          (diffie_hellman p m.identity.dh.secret message.initiator_ephemeral) _ _ v
                          λ dh2.
                            Refines-lift p m g
                              (diffie_hellman p key.secret message.initiator_ephemeral) _ _ v
                              λ dh3. rw (c.same_dh message.initiator_ephemeral) (
                                Refines-lift p m g
                                  (requested_dh p message.initiator_ephemeral c.key) _ _ v
                                  λ dh4.
                                    Refines-lift p m g
                                      (derive_handshake_values p message (local_public p m.identity)
                                        dh1 dh2 dh3 dh4)
                                      _ _ v
                                      λ derived. rw c.consumed ((rw c.forgotten refl), c.kept)))
            ])
