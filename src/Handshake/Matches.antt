-- ===== src/Handshake/Matches.antt =====
-- handshake.rs: `initiate` with a responder's bundle, followed by `accept` at the responder.
use mef.Prelude.{ℕ, ◌≡◌, refl, sym, ap, ◌∙◌, Option, none, some, List, All, Bytes}
use mef.Error.{ok}
use mef.Crypto.Primitives.{Primitives, IsDh, IsSigning}
use mef.Keys.Dh.{DhKeyPair, diffie_hellman}
use mef.Handshake.Authenticated.{AuthenticatedHandshake, responder}
use mef.Handshake.Message.{InitiatorHandshake, verify_identity, identity_public}
use mef.Handshake.Verified.{identity-verifies}
use mef.Handshake.Bundle.{OneTimePrekeyPublic, ResponderPrekeyBundle}
use mef.Handshake.Material.{LocalIdentity, ResponderPrekeyMaterial, local_public, bundle}
use mef.Handshake.Agreement.{initiate, accept, derive_handshake_values, offered_dh, offered_id}
use mef.Handshake.Store.{PrekeyStore, accept_message, requested, requested_dh, forget}
use mef.Handshake.Valid.{IsMaterial, IsPair, IsLocal, view}
use mef.Handshake.Accepts.{accept-Refines}
use mef.Handshake.Serves.{Serves, Offers, Keeps, bundle-Serves, history-Serves}
use mef.Handshake.Service.{Call, perform, history, history-Refines}
use mef.Ratchet.Start.{Agrees}
use mef.Handshake.Started.{Started, sent_message, initiate-Started}

-- Both ends of an agreement compute the same value.
pub diffie_hellman_comm :
    (p : Primitives) (a b : DhKeyPair)
    → IsDh p
    → IsPair p a
    → IsPair p b
    → diffie_hellman p a.secret b.public ≡ diffie_hellman p b.secret a.public
unfolding diffie_hellman
diffie_hellman_comm p a b dh pa pb = rw (pa, pb, dh.agrees a.secret b.secret) refl

-- The fourth agreement at the two ends.
fourth_same :
    (p : Primitives) (s : PrekeyStore) (ephemeral : DhKeyPair) (offer : Option OneTimePrekeyPublic)
    (dh4 : Option Bytes)
    → IsDh p
    → IsPair p ephemeral
    → Offers p s.one_time offer
    → offered_dh p ephemeral.secret offer ≡ ok dh4
    → (key : Option DhKeyPair) × (requested s (offered_id offer) ≡ ok key)
      × (requested_dh p ephemeral.public key ≡ ok dh4)
unfolding offered_dh
fourth_same p s ephemeral none dh4 dh pair offers made = (none, refl, made)
fourth_same p s ephemeral (some prekey) dh4 dh pair (key, held, key_pair, same) made =
    let comm = diffie_hellman_comm p ephemeral key dh pair key_pair in
    (some key, rw held refl, rw (← comm, same) made)

pub verified-local :
    (p : Primitives) (i : LocalIdentity)
    → IsSigning p
    → IsLocal p i
    → verify_identity p (local_public p i) ≡ ok tt
unfolding local_public
verified-local p i signing local =
    rw local.signing_derived (identity-verifies p signing i.signing.signing i.dh.public)

-- A store that serves the bundle accepts the message, and both ends agree.
accept_message-Started :
    (p : Primitives) (i : LocalIdentity) (b : ResponderPrekeyBundle) (message : InitiatorHandshake)
    (h : AuthenticatedHandshake) (s : PrekeyStore) (g : ℕ)
    → IsDh p
    → IsSigning p
    → IsLocal p i
    → Serves p b s
    → Started p i b message h
    → (h' : AuthenticatedHandshake) × (accept_message p message s g
        ≡ (ok h', record s { one_time = forget (offered_id b.one_time_prekey) s.one_time }, g))
      × Agrees h h'
unfolding accept_message local_public identity_public
accept_message-Started p i b message h s g dh signing local v t =
    let verified : verify_identity p (local_public p i) ≡ ok tt =
      verified-local p i signing local in
    let (one_time, asked, fourth) =
      fourth_same p s t.ephemeral b.one_time_prekey t.dh4 dh t.ephemeral_pair v.offers t.made4 in
    let one : diffie_hellman p v.key.secret i.dh.public ≡ ok t.dh1 =
      sym (diffie_hellman_comm p i.dh v.key dh local.dh_pair v.pair) ∙ rw v.same_key t.made1 in
    let same_dh : s.identity.dh.public ≡ b.identity.dh = sym (ap (λ x. x.dh) v.same_identity) in
    let two : diffie_hellman p s.identity.dh.secret t.ephemeral.public ≡ ok t.dh2 =
      sym (diffie_hellman_comm p t.ephemeral s.identity.dh dh t.ephemeral_pair v.dh_pair)
      ∙ rw same_dh t.made2 in
    let three : diffie_hellman p v.key.secret t.ephemeral.public ≡ ok t.dh3 =
      sym (diffie_hellman_comm p t.ephemeral v.key dh t.ephemeral_pair v.pair)
      ∙ rw v.same_key t.made3 in
    let derived : derive_handshake_values p (sent_message p i b t.ephemeral t.ratchet)
          (local_public p s.identity) t.dh1 t.dh2 t.dh3 t.dh4
        ≡ ok t.values =
      rw (← v.same_identity) t.derived in
    let h' : AuthenticatedHandshake = record {
      session_id = t.values.0;
      root_secret = t.values.1;
      role = responder;
      local_ratchet = v.key;
      remote_ratchet = t.ratchet.public;
    } in
    (
      h',
      rw (t.sent, verified, v.held, asked, one, two, three, fourth, derived) refl,
      record {
        session = rw t.started refl;
        root = rw t.started refl;
        initiates = rw t.started refl;
        responds = refl;
        a_key = rw t.started refl;
        b_key = rw t.started (sym v.same_key);
      },
    )

-- What the responder does with the message: the two results agree, and of the keys that answer only
-- the one-time prekey of the bundle is gone.
pub record Meets (p : Primitives) (b : ResponderPrekeyBundle) (message : InitiatorHandshake)
    (h : AuthenticatedHandshake) (m : ResponderPrekeyMaterial) (k : ℕ) : Type 0 where
  pub result : AuthenticatedHandshake
  pub accepted : (accept p message m k).0 ≡ ok result
  pub agrees : Agrees h result
  pub left :
      view (accept p message m k).1
      ≡ record (view m) { one_time = forget (offered_id b.one_time_prekey) (view m).one_time }

-- A responder hands out its bundle. After any calls at the responder that do not retire the signed
-- prekey or answer a message that asks for the same one-time prekey, an initiator's message for the
-- bundle is accepted, and both ends have the same session identifier and root, opposite roles and
-- each other's ratchet keys; of the keys that answer only the one-time prekey is gone. The material
-- is valid, the initiator's keys belong together, and agreement and signatures keep their laws.
pub accept-initiate :
    (p : Primitives) (m : ResponderPrekeyMaterial) (i : LocalIdentity) (calls : List Call)
    (message : InitiatorHandshake) (h : AuthenticatedHandshake) (now g g' j k : ℕ)
    → IsDh p
    → IsSigning p
    → IsMaterial p m
    → IsLocal p i
    → All (Keeps (bundle p m)) calls
    → initiate p i (bundle p m) now tt g ≡ (ok (message, h), tt, g')
    → Meets p (bundle p m) message h (history (perform p) calls m j).1 k
accept-initiate p m i calls message h now g g' j k dh signing v local keeps started =
    let m' = (history (perform p) calls m j).1 in
    let (same, v') = history-Refines p calls m j v in
    let serves : Serves p (bundle p m) (view m') =
      rw (ap (λ out. out.1) same) at
        (history-Serves p (bundle p m) calls (view m) j keeps (bundle-Serves p m v)) in
    let t = initiate-Started p i (bundle p m) now g g' message h started in
    let (h', promised, agrees) =
      accept_message-Started p i (bundle p m) message h (view m') k dh signing local serves t in
    let (refined, _) = accept-Refines p m' v' k message in
    let both = sym refined ∙ promised in
    record {
      result = h';
      accepted = ap (λ out. out.0) both;
      agrees = agrees;
      left = ap (λ out. out.1) both;
    }
