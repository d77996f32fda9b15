-- ===== src/Hybrid/Matches.antt =====
-- hybrid.rs: `initiate` with a responder's hybrid bundle, followed by `accept` at the responder.
use mef.Prelude.{ℕ, ◌≡◌, refl, sym, ap, ◌∙◌, inl, inr, List, All, Bytes, length, ◌==◌, Bool-cases}
use mef.Error.{ok, >>=-ok_inv}
use mef.Crypto.Primitives.{Primitives, IsDh, IsSigning}
use mef.Crypto.Kdf.{blake3_id, derive_secret}
use mef.Crypto.Seal.{fill_secure}
use mef.Pq.{MlKem768KeyPair, encapsulate, decapsulate, shared_secret_from_slice}
use mef.Pq.Kem.{MlKem, IsMlKem}
use mef.Handshake.Authenticated.{AuthenticatedHandshake}
use mef.Handshake.Material.{LocalIdentity, bundle}
use mef.Handshake.Agreement.{initiate, accept, offered_id}
use mef.Handshake.Store.{forget}
use mef.Handshake.Valid.{IsLocal, view}
use mef.Handshake.Serves.{Keeps}
use mef.Handshake.Service.{perform, history}
use mef.Handshake.Matches.{Meets, accept-initiate}
use mef.Effect.Laws.{lift-ok_inv, step-ok_inv, after-reply, out_injective}
use mef.Hybrid.Bundle.{HybridResponderPrekeyBundle, binding_transcript, verify_hybrid_bundle}
use mef.Hybrid.Message.{HybridInitiatorHandshake}
use mef.Hybrid.Agreement.{
  HybridResponderPrekeyMaterial, mix_ml_kem768, hybrid_bundle, accept_hybrid, initiate_hybrid,
  hybrid_session_label, hybrid_root_label, on_classical,
}
use mef.Hybrid.Valid.{IsHybrid}
use mef.Hybrid.Calls.{
  HybridCall, classical_calls, with_classical, run_hybrid, run_hybrid-history, accept_hybrid-left,
}
use mef.Ratchet.Start.{Agrees}

-- Mixing one secret into two results that agree gives results that agree.
mix_ml_kem768-Agrees :
    (p : Primitives) (h r mixed : AuthenticatedHandshake) (shared : Bytes)
    → Agrees h r
    → mix_ml_kem768 p h shared ≡ ok mixed
    → (r' : AuthenticatedHandshake) × (mix_ml_kem768 p r shared ≡ ok r') × Agrees mixed r'
unfolding mix_ml_kem768
mix_ml_kem768-Agrees p h r mixed shared w made =
    let (id, rest, hashed) = >>=-ok_inv (blake3_id p hybrid_session_label _) _ made in
    let (root, done, derived) = >>=-ok_inv (derive_secret p id hybrid_root_label _) _ rest in
    let same : record h { session_id = id; root_secret = root } ≡ mixed = cc in
    (
      record r { session_id = id; root_secret = root },
      rw (w.session, w.root, hashed, derived) refl,
      rw (← same) (record {
        session = refl;
        root = refl;
        initiates = w.initiates;
        responds = w.responds;
        a_key = w.a_key;
        b_key = w.b_key;
      }),
    )

-- A secret that was taken over has the bytes it was made of.
secret_same :
    (bytes : Bytes) {secret : Bytes} → shared_secret_from_slice bytes ≡ ok secret → secret ≡ bytes
unfolding shared_secret_from_slice
secret_same bytes made = elim (Bool-cases (length bytes == 32)) [
  | inl sized ↦ let now = rw sized at made in cc
  | inr other ↦ let now = rw other at made in cc
]

module _ {D E : Type 0} (p : Primitives) (q : MlKem D E) where
  -- What is sent, and the secret, come from one encapsulation.
  encapsulate-ok_inv :
      (key : E) (sent shared : Bytes) (g k : ℕ)
      → encapsulate p q key tt g ≡ (ok (sent, shared), tt, k)
      → (randomness : Bytes) × ((sent, shared) ≡ q.encapsulate_deterministic key randomness)
  unfolding encapsulate
  encapsulate-ok_inv key sent shared g k done =
      step-ok_inv (fill_secure p 32 tt g) _ k (sent, shared) done
        λ randomness _ g' filled done.
          lift-ok_inv (shared_secret_from_slice (q.encapsulate_deterministic key randomness).1) _ g'
            k (sent, shared) done
            λ secret made done.
              let same = out_injective done in
              let whole = secret_same (q.encapsulate_deterministic key randomness).1 made in
              (
                randomness,
                sym same ∙ ap (λ s. ((q.encapsulate_deterministic key randomness).0, s)) whole,
              )

  -- What a successful `initiate` has computed.
  record HybridStarted (i : LocalIdentity) (b : HybridResponderPrekeyBundle E) (now g : ℕ)
      (message : HybridInitiatorHandshake) (h : AuthenticatedHandshake) : Type 0 where
    classical : AuthenticatedHandshake
    shared : Bytes
    randomness : Bytes
    g1 : ℕ
    initiated : initiate p i b.classical now tt g ≡ (ok (message.classical, classical), tt, g1)
    encapsulated :
        (message.pq_ciphertext, shared) ≡ q.encapsulate_deterministic b.pq_public randomness
    mixed : mix_ml_kem768 p classical shared ≡ ok h

  initiate_hybrid-Started :
      (i : LocalIdentity) (b : HybridResponderPrekeyBundle E) (now g g' : ℕ)
      (message : HybridInitiatorHandshake) (h : AuthenticatedHandshake)
      → initiate_hybrid p q i b now tt g ≡ (ok (message, h), tt, g')
      → HybridStarted i b now g message h
  unfolding initiate_hybrid
  initiate_hybrid-Started i b now g g' message h done =
      let out : HybridInitiatorHandshake × AuthenticatedHandshake = (message, h) in
      lift-ok_inv (verify_hybrid_bundle p q b now) _ g g' out done λ _ verified done.
        step-ok_inv (initiate p i b.classical now tt g) _ g' out done λ started _ g1 initiated done.
          step-ok_inv (encapsulate p q b.pq_public tt g1) _ g' out done
            λ drawn _ g2 encapsulated done.
              lift-ok_inv (mix_ml_kem768 p started.1 drawn.1) _ g2 g' out done λ mixed made done.
                let same = out_injective done in
                let (randomness, from) =
                  encapsulate-ok_inv b.pq_public drawn.0 drawn.1 g1 g2 encapsulated in
                record {
                  classical = started.1;
                  shared = drawn.1;
                  randomness = randomness;
                  g1 = g1;
                  initiated =
                      initiated
                      ∙ ap (λ c. (ok (c, started.1), tt, g1)) (ap (λ o. o.0.classical) same);
                  encapsulated =
                      ap (λ c. (c, drawn.1)) (sym (ap (λ o. o.0.pq_ciphertext) same)) ∙ from;
                  mixed = made ∙ ap (λ o. ok o.1) same;
                }

  hybrid_bundle-parts :
      (m : HybridResponderPrekeyMaterial D E) (b : HybridResponderPrekeyBundle E)
      → hybrid_bundle p q m ≡ ok b
      → (b.classical ≡ bundle p m.classical) × (b.pq_public ≡ m.pq.public)
  unfolding hybrid_bundle
  hybrid_bundle-parts m b made =
      let (transcript, done, _) =
        >>=-ok_inv (binding_transcript p q (bundle p m.classical) m.pq.public) _ made in
      (cc, cc)

  -- The secret that was encapsulated for a key pair is the one that it decapsulates.
  decapsulate-encapsulate :
      (pair : MlKem768KeyPair D E) (sent shared randomness : Bytes)
      → IsMlKem q
      → pair.public ≡ q.encapsulation_key pair.secret
      → (sent, shared) ≡ q.encapsulate_deterministic pair.public randomness
      → decapsulate q pair sent ≡ ok shared
  unfolding decapsulate shared_secret_from_slice
  decapsulate-encapsulate pair sent shared randomness kem own made =
      let from = made ∙ ap (λ key. q.encapsulate_deterministic key randomness) own in
      let found : q.decapsulate pair.secret sent ≡ shared =
        ap (λ o. q.decapsulate pair.secret o.0) from
        ∙ kem.decapsulates pair.secret randomness
        ∙ sym (ap (λ o. o.1) from) in
      rw (kem.length-decapsulate pair.secret sent, found) refl

  -- What the responder does with the message: the two results agree, and of the keys that answer only
  -- the one-time prekey of the bundle is gone.
  pub record HybridMeets (b : HybridResponderPrekeyBundle E) (message : HybridInitiatorHandshake)
      (h : AuthenticatedHandshake) (m : HybridResponderPrekeyMaterial D E) (k : ℕ) : Type 0 where
    pub result : AuthenticatedHandshake
    pub accepted : (accept_hybrid p q message m k).0 ≡ ok result
    pub agrees : Agrees h result
    pub left : view (accept_hybrid p q message m k).1.classical ≡ record (view m.classical) {
      one_time = forget (offered_id b.classical.one_time_prekey) (view m.classical).one_time;
    }

  -- A responder hands out its hybrid bundle. After any calls at the responder that do not answer a
  -- message that asks for the same one-time prekey, an initiator's message for the bundle is accepted,
  -- and both ends have the same session identifier and root, opposite roles and each other's ratchet
  -- keys; of the keys that answer only the one-time prekey is gone. The material is valid, the
  -- initiator's keys belong together, and ML-KEM, agreement and signatures keep their laws.
  pub accept_hybrid-initiate_hybrid :
      (m : HybridResponderPrekeyMaterial D E) (b : HybridResponderPrekeyBundle E)
      (i : LocalIdentity) (calls : List HybridCall) (message : HybridInitiatorHandshake)
      (h : AuthenticatedHandshake) (now g g' j k : ℕ)
      → IsMlKem q
      → IsDh p
      → IsSigning p
      → IsHybrid p q m
      → IsLocal p i
      → hybrid_bundle p q m ≡ ok b
      → All (Keeps b.classical) (classical_calls calls)
      → initiate_hybrid p q i b now tt g ≡ (ok (message, h), tt, g')
      → HybridMeets b message h (run_hybrid p q calls m j).0 k
  unfolding accept_hybrid
  accept_hybrid-initiate_hybrid m b i calls message h now g g' j k kem dh signing v local made keeps
        started =
      let s = initiate_hybrid-Started i b now g g' message h started in
      let (same_classical, same_key) = hybrid_bundle-parts m b made in
      let c = (history (perform p) (classical_calls calls) m.classical j).1 in
      let met : Meets p (bundle p m.classical) message.classical s.classical c k =
        accept-initiate p m.classical i (classical_calls calls) message.classical s.classical now g
          s.g1 j k dh signing v.classical_valid local (rw same_classical at keeps)
          (rw same_classical at s.initiated) in
      let recovered : decapsulate q m.pq message.pq_ciphertext ≡ ok s.shared =
        decapsulate-encapsulate m.pq message.pq_ciphertext s.shared s.randomness kem v.own_key
          (rw same_key at s.encapsulated) in
      let (result, mixed, agrees) =
        mix_ml_kem768-Agrees p s.classical met.result h s.shared met.agrees s.mixed in
      rw (run_hybrid-history p q calls m j) (record {
        result = result;
        accepted =
            after-reply _ (on_classical (accept p message.classical) (with_classical m c) k)
              met.result met.accepted
            ∙ rw (recovered, mixed) refl;
        agrees = agrees;
        left =
            ap (λ o. view o.0.classical) (accept_hybrid-left p q message (with_classical m c) k)
            ∙ rw same_classical met.left;
      })
