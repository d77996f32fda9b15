-- ===== src/Ratchet/First.antt =====
-- handshake.rs and ratchet/state.rs together: two sessions made from a handshake, and a message
-- between them.
use mef.Prelude.{
  ℕ, ◌+◌, ◌≤◌, ◌≡◌, refl, ap, List, [], All, arith, Bytes, length, subst, codes, ◌||◌, Option,
}
use mef.Error.{ok, >>=-ok_inv, fail_if, invalid_length}
use mef.Limits.{max_ciphertext_len}
use mef.Crypto.Suite.{nonce_len}
use mef.Crypto.Aead.{aead_tag_len}
use mef.Crypto.Primitives.{Primitives, IsAead, IsKdf, IsHash, IsDh, IsSigning, Granted}
use mef.Crypto.Kdf.{
  blake3_id, derive_secret, domain_label, feed_parts, id_prefix, label_invalid, any_oversized,
}
use mef.Frame.Header.{FrameKind}
use mef.Frame.Valid.{IsHeader}
use mef.Handshake.Authenticated.{AuthenticatedHandshake}
use mef.Handshake.Message.{IdentityDhPublic, InitiatorHandshake}
use mef.Handshake.Material.{LocalIdentity, ResponderPrekeyMaterial, bundle}
use mef.Handshake.Agreement.{initiate, accept, derive_handshake_values}
use mef.Handshake.Valid.{IsMaterial, IsLocal}
use mef.Handshake.Serves.{Keeps}
use mef.Handshake.Service.{Call, perform, history}
use mef.Handshake.Started.{sent_message, initiate-Started}
use mef.Handshake.Matches.{accept-initiate}
use mef.Ratchet.State.{RatchetState}
use mef.Ratchet.Init.{
  default_suite, init_a_to_b_label, init_b_to_a_label, from_authenticated_handshake,
  from_authenticated_handshake_with_suite,
}
use mef.Ratchet.Start.{Agrees, started, init_lem, init-Ahead}
use mef.Ratchet.Exchange.{Exchanges, header_of, encrypt-decrypt}

ok_length : (x : Bytes) {y : Bytes} → ok x ≡ ok y → length x ≡ 32 → length y ≡ 32
ok_length x same h = subst (λ z. length z ≡ 32) (cc) h

ok_first : {x y : Bytes} {out : Bytes × Bytes} → ok (x, y) ≡ ok out → x ≡ out.0
ok_first {x = x} {y = y} {out = out} same = let pair : (x, y) ≡ out = cc in ap (λ o. o.0) pair

blake3_id-length :
    (p : Primitives) (label : Bytes) (parts : List Bytes) {id : Bytes}
    → IsHash p
    → blake3_id p label parts ≡ ok id
    → length id ≡ 32
unfolding blake3_id
blake3_id-length p label parts hash made =
    let (_, fed_made, _) =
      >>=-ok_inv (fail_if (label_invalid label || any_oversized parts) invalid_length) _ made in
    let (fed, done, _) = >>=-ok_inv (feed_parts (id_prefix label) parts) _ fed_made in
    let digest = hash.length-digest fed in ok_length (p.blake3_digest fed) done digest

session_length :
    (p : Primitives) (message : InitiatorHandshake) (i : IdentityDhPublic) (dh1 dh2 dh3 : Bytes)
    (dh4 : Option Bytes) (values : Bytes × Bytes)
    → IsHash p
    → derive_handshake_values p message i dh1 dh2 dh3 dh4 ≡ ok values
    → length values.0 ≡ 32
unfolding derive_handshake_values
session_length p message i dh1 dh2 dh3 dh4 values hash made =
    let (id, rest, hashed) = >>=-ok_inv (blake3_id p _ _) _ made in
    let (root, done, _) = >>=-ok_inv (derive_secret p id _ _) _ rest in
    let same : id ≡ values.0 = ok_first done in rw (← same) (blake3_id-length p _ _ hash hashed)

-- A session starts from any result with an identifier of 32 bytes.
session_made :
    (p : Primitives) (h : AuthenticatedHandshake)
    → IsKdf p
    → length h.session_id ≡ 32
    → (s : RatchetState) × (from_authenticated_handshake p h ≡ ok s)
unfolding from_authenticated_handshake from_authenticated_handshake_with_suite derive_secret
session_made p h kdf len =
    let (x, x_made, _) =
      kdf.expands h.root_secret h.session_id (domain_label (codes "kdf") init_a_to_b_label) in
    let (y, y_made, _) =
      kdf.expands h.root_secret h.session_id (domain_label (codes "kdf") init_b_to_a_label) in
    (started h default_suite x y, rw (len, x_made, y_made) refl)

started-IsHeader :
    (p : Primitives) (h : AuthenticatedHandshake) (s : RatchetState) (kind : FrameKind)
    → from_authenticated_handshake p h ≡ ok s
    → length h.session_id ≡ 32
    → length h.local_ratchet.public ≡ 32
    → IsHeader (header_of kind s)
      × (s.sending_count ≡ 0)
      × (s.skipped ≡ [])
      × (s.suite ≡ default_suite)
unfolding from_authenticated_handshake
started-IsHeader p h s kind made session_len ratchet_len =
    let (x, y, _, _, built) = init_lem p h default_suite s made in
    rw (← built) (
      record {
        session_len = session_len;
        ratchet_len = ratchet_len;
        previous_fits = omega arith;
        number_fits = omega arith;
      },
      refl,
      refl,
      refl,
    )

module _ (p : Primitives) (aead : IsAead p) (kdf : IsKdf p) (h r : AuthenticatedHandshake)
    (kind : FrameKind) (plaintext : Bytes) (g : ℕ) where
  -- The two sessions, and a message in each direction.
  pub record Talks : Type 0 where
    pub initiator_session : RatchetState
    pub responder_session : RatchetState
    pub initiator_made : from_authenticated_handshake p h ≡ ok initiator_session
    pub responder_made : from_authenticated_handshake p r ≡ ok responder_session
    pub forth : Exchanges p aead kdf initiator_session responder_session 0 kind plaintext g
    pub back : Exchanges p aead kdf responder_session initiator_session 0 kind plaintext g

  agreed-Talks :
      Agrees h r
      → length h.session_id ≡ 32
      → length h.local_ratchet.public ≡ 32
      → length h.remote_ratchet ≡ 32
      → length plaintext + aead_tag_len ≤ max_ciphertext_len
      → Granted p g 24
      → Talks
  unfolding from_authenticated_handshake nonce_len
  agreed-Talks w session_len ratchet_len remote_len fits granted =
      let r_session : length r.session_id ≡ 32 = rw w.session session_len in
      let r_ratchet : length r.local_ratchet.public ≡ 32 = rw (← w.b_key) remote_len in
      let (a, a_made) = session_made p h kdf session_len in
      let (b, b_made) = session_made p r kdf r_session in
      let (a_header, a_count, a_skipped, a_suite) =
        started-IsHeader p h a kind a_made session_len ratchet_len in
      let (b_header, b_count, b_skipped, b_suite) =
        started-IsHeader p r b kind b_made r_session r_ratchet in
      let (a_to_b, b_to_a) = init-Ahead p h r default_suite a b w a_made b_made in
      record {
        initiator_session = a;
        responder_session = b;
        initiator_made = a_made;
        responder_made = b_made;
        forth =
            encrypt-decrypt p aead kdf a b 0 kind plaintext g a_to_b a_header (omega arith) fits
              (omega (arith, ap (length {0}) b_skipped)) (rw a_suite granted);
        back =
            encrypt-decrypt p aead kdf b a 0 kind plaintext g b_to_a b_header (omega arith) fits
              (omega (arith, ap (length {0}) a_skipped)) (rw b_suite granted);
      }

-- A handshake as in Handshake.Matches.accept-initiate leads to two sessions that talk: from the
-- result of each end a session is made, and a message that either of them encrypts first is
-- decrypted by the other. The plaintext leaves room for the tag, the request for the nonce is
-- granted, and all third-party laws hold.
pub initiate-Talks :
    (p : Primitives) (aead : IsAead p) (kdf : IsKdf p) (m : ResponderPrekeyMaterial)
    (i : LocalIdentity) (calls : List Call) (message : InitiatorHandshake)
    (h : AuthenticatedHandshake) (now g g' j k n : ℕ) (kind : FrameKind) (plaintext : Bytes)
    → IsHash p
    → IsDh p
    → IsSigning p
    → IsMaterial p m
    → IsLocal p i
    → All (Keeps (bundle p m)) calls
    → initiate p i (bundle p m) now tt g ≡ (ok (message, h), tt, g')
    → length plaintext + aead_tag_len ≤ max_ciphertext_len
    → Granted p n 24
    → (r : AuthenticatedHandshake) × ((accept p message (history (perform p) calls m j).1 k).0
        ≡ ok r)
      × Talks p aead kdf h r kind plaintext n
unfolding bundle
initiate-Talks p aead kdf m i calls message h now g g' j k n kind plaintext hash dh signing v local
      keeps started fits granted =
    let met = accept-initiate p m i calls message h now g g' j k dh signing v local keeps started in
    let t = initiate-Started p i (bundle p m) now g g' message h started in
    let session_len : length h.session_id ≡ 32 = rw t.started (
      session_length p (sent_message p i (bundle p m) t.ephemeral t.ratchet) _ t.dh1 t.dh2 t.dh3
        t.dh4 t.values hash t.derived) in
    let ratchet_len : length h.local_ratchet.public ≡ 32 =
      rw (t.started, t.ratchet_pair) (dh.length-public t.ratchet.secret) in
    let remote_len : length h.remote_ratchet ≡ 32 =
      rw (t.started, v.current.same_key, v.current.pair)
        (dh.length-public m.signed_prekey.secret) in
    (
      met.result,
      met.accepted,
      agreed-Talks p aead kdf h met.result kind plaintext n met.agrees session_len ratchet_len
          remote_len fits granted,
    )
