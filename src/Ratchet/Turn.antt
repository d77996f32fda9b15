-- ===== src/Ratchet/Turn.antt =====
-- ratchet/state.rs: one frame on a new ratchet key, after which the peer is on a new key in turn.
use mef.Prelude.{
  ℕ, ◌+◌, ◌≤◌, ◌≡◌, ◌≢◌, refl, sym, ap, ◌∙◌, arith, [], Bytes, length, leb-true, u32_max,
}
use mef.Error.{ok}
use mef.Limits.{max_skipped_keys, max_ciphertext_len}
use mef.Crypto.Suite.{nonce_len}
use mef.Crypto.Primitives.{Primitives, IsAead, IsKdf, IsDh, Granted}
use mef.Crypto.Aead.{aead_tag_len}
use mef.Keys.Dh.{DhKeyPair, generate, diffie_hellman}
use mef.Frame.Header.{FrameKind}
use mef.Frame.Format.{InnerFrame}
use mef.Frame.Valid.{IsHeader}
use mef.Frame.Seal.Opens.{seal_frame-SealsFrame}
use mef.Handshake.Matches.{diffie_hellman_comm}
use mef.Ratchet.Schedule.{derive_keys}
use mef.Ratchet.Schedule.Chain.{chain_step-eq}
use mef.Ratchet.State.{RatchetState, encrypt, next_generation}
use mef.Ratchet.Decrypt.{decrypt}
use mef.Ratchet.Exchange.{Ahead, header_of}
use mef.Ratchet.Step.{
  Pending, stepped_state, decrypt-step, root_step-eq, length-diffie_hellman, generate-IsPair,
}

module _ (p : Primitives) (aead : IsAead p) (kdf : IsKdf p) (a b : RatchetState) (k j : ℕ)
    (kind : FrameKind) (plaintext : Bytes) (g i : ℕ) where
  -- The frame that `a` sends and the states that both are in when `b` has received it: in step, and
  -- with `b` on a new key in turn.
  pub record Turns : Type 0 where
    pub frame : InnerFrame
    pub a' : RatchetState
    pub b' : RatchetState
    pub sent : encrypt p kind plaintext a g ≡ (ok frame, a', g + 1)
    pub received : decrypt p frame b i ≡ (ok plaintext, b', i + 1)
    pub in_step : Ahead p 0 a' b'
    pub answer : Pending p j 0 b' a'

  -- When `a` is on a key that is new to `b`, encrypting a plaintext at `a` succeeds, `b` decrypts the
  -- frame, and `b` is then on a key that is new to `a`.
  pub pending-Turns :
      (next : DhKeyPair) (sent : Bytes)
      → IsDh p
      → Pending p k j a b
      → IsHeader (header_of kind a)
      → length plaintext + aead_tag_len ≤ max_ciphertext_len
      → length b.skipped + k ≤ max_skipped_keys
      → Granted p g (nonce_len a.suite)
      → generate p tt i ≡ (ok next, tt, i + 1)
      → diffie_hellman p next.secret a.dh_pair.public ≡ ok sent
      → next.public ≢ a.remote_dh
      → Turns
  unfolding encrypt derive_keys
  pending-Turns next sent dh w header fits room granted drawn answered new =
      let (receiving, key, stepped, key_len) = chain_step-eq p a.sending_chain kdf in
      let (f, sealed, s) =
        seal_frame-SealsFrame p aead key key_len a.suite (header_of kind a) plaintext g granted
          header fits in
      let (root, chain, next_step) =
        root_step-eq p a.root_key sent kdf
          (length-diffie_hellman p next.secret a.dh_pair.public sent dh answered) in
      let a' : RatchetState =
        next_generation
          (record a { sending_chain = receiving; sending_count = a.sending_count + 1 }) in
      let kept : f.header ≡ header_of kind a = s.header_kept in
      let count : f.header.message_number ≡ a.sending_count = ap (λ h. h.message_number) kept in
      let kind_is : f.header.kind ≡ kind = ap (λ h. h.kind) kept in
      record {
        frame = f;
        a' = a';
        b' = stepped_state b next root receiving chain w.old_keys f;
        sent =
            rw (stepped, sealed, leb-true (a.sending_count + 1) u32_max (omega (arith, w.first)))
              refl;
        received =
            decrypt-step p k j a b w f next sent root chain receiving key plaintext i
              (kept ∙ rw kind_is refl) s.suite_kept room drawn answered next_step stepped s.opens;
        in_step = record {
          session = w.session;
          suite_same = w.suite_same;
          remote = ap (λ h. h.ratchet_public) kept;
          number = omega arith;
          keys = [];
          reaches = refl;
        };
        answer = record {
          session = sym w.session;
          suite_same = sym w.suite_same;
          first = refl;
          behind = w.number;
          old_end = b.sending_chain;
          old_keys = w.reply_keys;
          old_reached = w.replies;
          shared = sent;
          agreed =
              diffie_hellman_comm p a.dh_pair next dh w.a_pair (generate-IsPair p i next drawn)
              ∙ answered;
          stepped = next_step;
          fresh = new;
          a_pair = generate-IsPair p i next drawn;
          number = omega arith;
          reply_keys = [];
          replies = refl;
        };
      }
