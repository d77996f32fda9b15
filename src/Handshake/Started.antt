-- ===== src/Handshake/Started.antt =====
-- handshake.rs: what a successful `initiate` has computed.
use mef.Prelude.{ℕ, ◌+◌, ◌≡◌, sym, ap, inl, inr, Option, Bytes}
use mef.Error.{ok}
use mef.Effect.{M, ◌>>=◌}
use mef.Crypto.Primitives.{Primitives}
use mef.Keys.Dh.{DhKeyPair, diffie_hellman, generate}
use mef.Handshake.Authenticated.{AuthenticatedHandshake, initiator}
use mef.Handshake.Message.{InitiatorHandshake}
use mef.Handshake.Bundle.{ResponderPrekeyBundle, verify_bundle}
use mef.Handshake.Material.{LocalIdentity, local_public}
use mef.Handshake.Agreement.{initiate, derive_handshake_values, offered_dh, offered_id}
use mef.Handshake.Valid.{IsPair}
use mef.Handshake.Refines.{generate-cases}
use mef.Effect.Laws.{lift-ok_inv, out_injective}

generate-ok_inv :
    {A P : Type 0} (p : Primitives) (rest : DhKeyPair → M (Unit {0}) A) (g k : ℕ) (out : A)
    → (generate p >>= rest) tt g ≡ (ok out, tt, k)
    → ((key : DhKeyPair) → IsPair p key → rest key tt (g + 1) ≡ (ok out, tt, k) → P)
    → P
generate-ok_inv p rest g k out done next = elim (generate-cases p g) [
  | inl dry ↦ let stuck = rw dry at done in cc
  | inr (key, made, pair) ↦ next key pair (rw made at done)
]

abbrev pub sent_message :
    Primitives → LocalIdentity → ResponderPrekeyBundle → DhKeyPair → DhKeyPair → InitiatorHandshake
sent_message p i b ephemeral ratchet = record {
  initiator_identity = local_public p i;
  initiator_ephemeral = ephemeral.public;
  initiator_ratchet = ratchet.public;
  signed_prekey_id = b.signed_prekey.key_id;
  one_time_prekey_id = offered_id b.one_time_prekey;
}

-- What a successful `initiate` has computed.
pub record Started (p : Primitives) (i : LocalIdentity) (b : ResponderPrekeyBundle)
    (message : InitiatorHandshake) (h : AuthenticatedHandshake) : Type 0 where
  pub ephemeral : DhKeyPair
  pub ratchet : DhKeyPair
  pub ephemeral_pair : IsPair p ephemeral
  pub ratchet_pair : IsPair p ratchet
  pub dh1 : Bytes
  pub dh2 : Bytes
  pub dh3 : Bytes
  pub dh4 : Option Bytes
  pub made1 : diffie_hellman p i.dh.secret b.signed_prekey.public ≡ ok dh1
  pub made2 : diffie_hellman p ephemeral.secret b.identity.dh ≡ ok dh2
  pub made3 : diffie_hellman p ephemeral.secret b.signed_prekey.public ≡ ok dh3
  pub made4 : offered_dh p ephemeral.secret b.one_time_prekey ≡ ok dh4
  pub values : Bytes × Bytes
  pub derived :
      derive_handshake_values p (sent_message p i b ephemeral ratchet) b.identity dh1 dh2 dh3 dh4
      ≡ ok values
  pub sent : message ≡ sent_message p i b ephemeral ratchet
  pub started : h ≡ record {
    session_id = values.0;
    root_secret = values.1;
    role = initiator;
    local_ratchet = ratchet;
    remote_ratchet = b.signed_prekey.public;
  }

pub initiate-Started :
    (p : Primitives) (i : LocalIdentity) (b : ResponderPrekeyBundle) (now g g' : ℕ)
    (message : InitiatorHandshake) (h : AuthenticatedHandshake)
    → initiate p i b now tt g ≡ (ok (message, h), tt, g')
    → Started p i b message h
unfolding initiate
initiate-Started p i b now g g' message h done =
    let out : InitiatorHandshake × AuthenticatedHandshake = (message, h) in
    lift-ok_inv (verify_bundle p b now) _ g g' out done λ _ verified done.
      generate-ok_inv p _ g g' out done λ ephemeral ephemeral_pair done.
        generate-ok_inv p _ (g + 1) g' out done λ ratchet ratchet_pair done.
          lift-ok_inv (diffie_hellman p i.dh.secret b.signed_prekey.public) _ _ g' out done
            λ dh1 made1 done.
              lift-ok_inv (diffie_hellman p ephemeral.secret b.identity.dh) _ _ g' out done
                λ dh2 made2 done.
                  lift-ok_inv (diffie_hellman p ephemeral.secret b.signed_prekey.public) _ _ g' out
                    done
                    λ dh3 made3 done.
                      lift-ok_inv (offered_dh p ephemeral.secret b.one_time_prekey) _ _ g' out done
                        λ dh4 made4 done.
                          lift-ok_inv
                            (derive_handshake_values p (sent_message p i b ephemeral ratchet)
                              b.identity dh1 dh2 dh3 dh4)
                            _ _ g' out done
                            λ values derived done.
                              let same = out_injective done in
                              record {
                                ephemeral = ephemeral;
                                ratchet = ratchet;
                                ephemeral_pair = ephemeral_pair;
                                ratchet_pair = ratchet_pair;
                                dh1 = dh1;
                                dh2 = dh2;
                                dh3 = dh3;
                                dh4 = dh4;
                                made1 = made1;
                                made2 = made2;
                                made3 = made3;
                                made4 = made4;
                                values = values;
                                derived = derived;
                                sent = sym (ap (λ o. o.0) same);
                                started = sym (ap (λ o. o.1) same);
                              }
