-- ===== src/Ratchet/Linked.antt =====
-- ratchet/state.rs: `rotate_sending_ratchet` at one of two sessions, and the frame that follows.
use mef.Prelude.{ℕ, ◌+◌, ◌≤◌, ◌≡◌, ◌≢◌, refl, sym, ap, ◌∙◌, inl, inr, Bytes, length}
use mef.Error.{ok}
use mef.Limits.{max_skipped_keys, max_ciphertext_len}
use mef.Crypto.Suite.{AeadSuite, nonce_len}
use mef.Crypto.Primitives.{Primitives, IsAead, IsKdf, IsDh, Granted}
use mef.Crypto.Aead.{aead_tag_len}
use mef.Effect.Laws.{lift-ok_inv}
use mef.Keys.Dh.{DhKeyPair, generate, diffie_hellman}
use mef.Frame.Header.{FrameKind}
use mef.Frame.Valid.{IsHeader}
use mef.Handshake.Valid.{IsPair}
use mef.Handshake.Refines.{generate-cases}
use mef.Handshake.Matches.{diffie_hellman_comm}
use mef.Ratchet.Schedule.{root_step}
use mef.Ratchet.State.{RatchetState, rotate_sending_ratchet, next_generation}
use mef.Ratchet.Exchange.{Ahead, header_of}
use mef.Handshake.Authenticated.{AuthenticatedHandshake}
use mef.Ratchet.Init.{from_authenticated_handshake_with_suite}
use mef.Ratchet.Start.{Agrees, init_lem, init-Ahead}
use mef.Ratchet.Step.{Pending}
use mef.Ratchet.Turn.{Turns, pending-Turns}

-- The two sessions before one of them rotates: on one root, `k` frames of `a`'s chain and `j` of
-- `b`'s have not arrived.
pub record Linked (p : Primitives) (k j : ℕ) (a b : RatchetState) : Type 0 where
  pub forth : Ahead p k a b
  pub back : Ahead p j b a
  pub root : b.root_key ≡ a.root_key
  pub b_pair : IsPair p b.dh_pair

-- Sessions made with one suite from the two results of one handshake are linked.
pub init-Linked :
    (p : Primitives) (ha hb : AuthenticatedHandshake) (suite : AeadSuite) (a b : RatchetState)
    → Agrees ha hb
    → IsPair p hb.local_ratchet
    → from_authenticated_handshake_with_suite p ha suite ≡ ok a
    → from_authenticated_handshake_with_suite p hb suite ≡ ok b
    → Linked p 0 0 a b
init-Linked p ha hb suite a b w pair made_a made_b =
    let (_, _, _, _, built_a) = init_lem p ha suite a made_a in
    let (_, _, _, _, built_b) = init_lem p hb suite b made_b in
    let (forth, back) = init-Ahead p ha hb suite a b w made_a made_b in
    record {
      forth = forth;
      back = back;
      root = ap (λ s. s.root_key) (sym built_b) ∙ w.root ∙ ap (λ s. s.root_key) built_a;
      b_pair = rw (← built_b) pair;
    }

module _ (p : Primitives) (dh : IsDh p) (k j : ℕ) (a b : RatchetState) (w : Linked p k j a b) where
  rotate-Pending :
      (a1 : RatchetState) (g g1 : ℕ)
      → rotate_sending_ratchet p a g ≡ (ok tt, a1, g1)
      → a1.dh_pair.public ≢ b.remote_dh
      → Pending p k j a1 b
  unfolding rotate_sending_ratchet
  rotate-Pending a1 g g1 rotated fresh = elim (generate-cases p g) [
    | inl dry ↦ let stuck = rw dry at rotated in cc
    | inr (next, drawn, pair) ↦
        let started = rw drawn at rotated in
        lift-ok_inv (diffie_hellman p next.secret a.remote_dh) _ (g + 1) g1 tt started
          λ shared agreed done.
            lift-ok_inv (root_step p a.root_key shared) _ (g + 1) g1 tt done λ out stepped done.
              let rotated_state : RatchetState = next_generation (record a {
                root_key = out.0;
                sending_chain = out.1;
                dh_pair = next;
                previous_sending_chain_len = a.sending_count;
                sending_count = 0;
              }) in
              let same : rotated_state ≡ a1 = cc in
              let unseen : next.public ≢ b.remote_dh = rw (← same) at fresh in
              rw (← same) (record {
                session = w.forth.session;
                suite_same = w.forth.suite_same;
                first = refl;
                behind = w.forth.number;
                old_end = a.sending_chain;
                old_keys = w.forth.keys;
                old_reached = w.forth.reaches;
                shared = shared;
                agreed =
                    sym (diffie_hellman_comm p next b.dh_pair dh pair w.b_pair)
                    ∙ rw (← w.back.remote) agreed;
                stepped = rw w.root stepped;
                fresh = unseen;
                a_pair = pair;
                number = w.back.number;
                reply_keys = w.back.keys;
                replies = w.back.reaches;
              })
  ]

  module _ (aead : IsAead p) (kdf : IsKdf p) (kind : FrameKind) (plaintext : Bytes) where
    -- Let two sessions share root, session and suite, with `k` frames of `a`'s chain and `j` of `b`'s on
    -- their way. When `a` rotates its sending ratchet, encrypting a plaintext succeeds and `b` decrypts
    -- the frame; `b` has then missed no frame of the new chain, and is itself on a new key, from which
    -- the same holds with the roles exchanged. Each new key is not the one that the peer has and
    -- agrees with the peer's, requests to the generator are granted, there is room for the `k` skipped
    -- keys and for the tag, `a`'s header fields have their widths, and the AEAD, HKDF and agreement
    -- keep their laws.
    pub rotate-Turns :
        (a1 : RatchetState) (next : DhKeyPair) (sent : Bytes) (g g1 n i : ℕ)
        → rotate_sending_ratchet p a g ≡ (ok tt, a1, g1)
        → a1.dh_pair.public ≢ b.remote_dh
        → IsHeader (header_of kind a1)
        → length plaintext + aead_tag_len ≤ max_ciphertext_len
        → length b.skipped + k ≤ max_skipped_keys
        → Granted p n (nonce_len a1.suite)
        → generate p tt i ≡ (ok next, tt, i + 1)
        → diffie_hellman p next.secret a1.dh_pair.public ≡ ok sent
        → next.public ≢ a1.remote_dh
        → Turns p aead kdf a1 b k j kind plaintext n i
    rotate-Turns a1 next sent g g1 n i rotated fresh header fits room granted drawn answered new =
        pending-Turns p aead kdf a1 b k j kind plaintext n i next sent dh
          (rotate-Pending a1 g g1 rotated fresh) header fits room granted drawn answered new
