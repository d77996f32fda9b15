-- ===== src/Ratchet/Exchange.antt =====
-- ratchet/state.rs: `encrypt` at one session followed by `decrypt` at its peer.
use mef.Prelude.{
  ℕ, suc, ◌+◌, ◌≤◌, ◌<◌, ◌≡◌, true, refl, sym, ap, ◌∙◌, arith, [], ◌∷◌, ◌++◌, Bytes, length,
  ltb-false, leb-true, bytes_eq_refl, bytes_eq, u32_max,
}
use mef.Error.{ok}
use mef.Limits.{max_skipped_keys, max_ciphertext_len}
use mef.Crypto.Suite
use mef.Crypto.Suite.{nonce_len}
use mef.Crypto.Primitives.{Primitives, IsAead, IsKdf, Granted}
use mef.Crypto.Aead.{aead_tag_len}
use mef.Frame.Header.{FrameKind, FrameHeader}
use mef.Frame.Format.{InnerFrame, open_frame}
use mef.Frame.Valid.{IsHeader, IsFrame}
use mef.Frame.Seal.Opens.{seal_frame-SealsFrame}
use mef.Ratchet.Schedule.{SkippedKeys, chain_step, derive_keys, derive_for_message}
use mef.Ratchet.Schedule.Chain.{chain_step-eq, derive_keys-snoc, derive_for_message-eq}
use mef.Ratchet.State.{RatchetState, encrypt, next_generation, skipped_entries}
use mef.Ratchet.Decrypt.{decrypt, decrypt_same_ratchet, decrypt_ahead}

-- What a frame of this session carries: `encrypt`'s header.
abbrev pub header_of : FrameKind → RatchetState → FrameHeader
header_of kind s = record {
  kind = kind;
  session_id = s.session_id;
  ratchet_public = s.dh_pair.public;
  previous_chain_len = s.previous_sending_chain_len;
  message_number = s.sending_count;
}

-- `b` receives from `a`, who sent `k` frames of the current chain that `b` has not seen.
pub record Ahead (p : Primitives) (k : ℕ) (a b : RatchetState) : Type 0 where
  pub session : b.session_id ≡ a.session_id
  pub suite_same : b.suite ≡ a.suite
  pub remote : b.remote_dh ≡ a.dh_pair.public
  pub number : a.sending_count ≡ b.receiving_count + k
  pub keys : SkippedKeys
  pub reaches : derive_keys p b.receiving_chain b.receiving_count k ≡ ok (a.sending_chain, keys)

-- The receiver's state behind the frame.
abbrev received_state : RatchetState → Bytes → SkippedKeys → InnerFrame → RatchetState
received_state b next keys f = next_generation (record b {
  receiving_chain = next;
  receiving_count = f.header.message_number + 1;
  skipped = b.skipped ++ skipped_entries f.header.ratchet_public keys;
})

-- A frame at or ahead of the receiving chain, of the current remote key.
decrypt-ahead :
    (p : Primitives) (b : RatchetState) (f : InnerFrame) (k j : ℕ) (last next key plaintext : Bytes)
    (keys : SkippedKeys)
    → f.header.session_id ≡ b.session_id
    → f.ciphertext.suite ≡ b.suite
    → f.header.ratchet_public ≡ b.remote_dh
    → f.header.message_number ≡ b.receiving_count + k
    → f.header.message_number < u32_max
    → length b.skipped + k ≤ max_skipped_keys
    → derive_keys p b.receiving_chain b.receiving_count k ≡ ok (last, keys)
    → chain_step p last ≡ ok (next, key)
    → open_frame p f key ≡ ok plaintext
    → decrypt p f b j ≡ (ok plaintext, received_state b next keys f, j)
unfolding decrypt decrypt_same_ratchet decrypt_ahead
decrypt-ahead p b f k j last next key plaintext keys session suite remote number low room derived
      stepped opened =
    let same_session : bytes_eq f.header.session_id b.session_id ≡ true =
      rw session (bytes_eq_refl b.session_id) in
    let same_suite : Suite.same f.ciphertext.suite b.suite ≡ true =
      rw suite (Suite.same_refl b.suite) in
    let same_remote : bytes_eq f.header.ratchet_public b.remote_dh ≡ true =
      rw remote (bytes_eq_refl b.remote_dh) in
    let ahead =
      derive_for_message-eq p k b.receiving_chain last next key b.receiving_count (length b.skipped)
        keys derived stepped room in
    let target : derive_for_message p b.receiving_chain b.receiving_count f.header.message_number
          (length b.skipped)
        ≡ ok (next, key, keys) =
      rw number ahead in
    rw
      (
        same_session,
        same_suite,
        same_remote,
        ltb-false f.header.message_number b.receiving_count (omega arith),
        target,
        opened,
        leb-true (f.header.message_number + 1) u32_max (omega arith),
      )
      refl

module _ (p : Primitives) (aead : IsAead p) (kdf : IsKdf p) (a b : RatchetState) (k : ℕ)
    (kind : FrameKind) (plaintext : Bytes) (g : ℕ) where
  -- The frame that `a` sends and the states that both are in when `b` has received it.
  pub record Exchanges : Type 0 where
    pub frame : InnerFrame
    pub a' : RatchetState
    pub b' : RatchetState
    pub sent : encrypt p kind plaintext a g ≡ (ok frame, a', g + 1)
    pub carried : IsFrame frame
    pub received : (j : ℕ) → decrypt p frame b j ≡ (ok plaintext, b', j)
    pub in_step : Ahead p 0 a' b'
    pub lost : Ahead p (suc k) a' b

  -- Let `b` have missed the last `k` frames of `a`'s chain, within the limit on skipped keys. Then
  -- encrypting a plaintext at `a` succeeds, when the request for the nonce is granted; decrypting
  -- the frame at `b` gives the plaintext; afterwards `b` has missed none, and had the frame been
  -- lost `b` would have missed `k + 1`. The AEAD decrypts what it encrypts, HKDF gives 32 bytes,
  -- `a`'s header fields have their widths, its counter has room and the plaintext leaves room for
  -- the tag.
  pub encrypt-decrypt :
      Ahead p k a b
      → IsHeader (header_of kind a)
      → a.sending_count < u32_max
      → length plaintext + aead_tag_len ≤ max_ciphertext_len
      → length b.skipped + k ≤ max_skipped_keys
      → Granted p g (nonce_len a.suite)
      → Exchanges
  unfolding encrypt decrypt derive_keys
  encrypt-decrypt w header low fits room granted =
      let (next, key, stepped, key_len) = chain_step-eq p a.sending_chain kdf in
      let (f, sealed, s) =
        seal_frame-SealsFrame p aead key key_len a.suite (header_of kind a) plaintext g granted
          header fits in
      let snoc =
        derive_keys-snoc p k b.receiving_chain a.sending_chain next key b.receiving_count w.keys
          w.reaches stepped in
      let a' : RatchetState =
        next_generation (record a { sending_chain = next; sending_count = a.sending_count + 1 }) in
      let kept = s.header_kept in
      let same_suite = s.suite_kept ∙ sym w.suite_same in
      let count : f.header.message_number ≡ a.sending_count = ap (λ h. h.message_number) kept in
      record {
        frame = f;
        a' = a';
        b' = received_state b next w.keys f;
        sent = rw (stepped, sealed, leb-true (a.sending_count + 1) u32_max (omega arith)) refl;
        carried = s.valid;
        received = λ j.
            decrypt-ahead p b f k j a.sending_chain next key plaintext w.keys
              (ap (λ h. h.session_id) kept ∙ sym w.session) same_suite
              (ap (λ h. h.ratchet_public) kept ∙ sym w.remote) (count ∙ w.number) (omega arith) room
              w.reaches stepped s.opens;
        in_step = record {
          session = w.session;
          suite_same = w.suite_same;
          remote = w.remote;
          number = omega arith;
          keys = [];
          reaches = refl;
        };
        lost = record {
          session = w.session;
          suite_same = w.suite_same;
          remote = w.remote;
          number = omega arith;
          keys = w.keys ++ ((b.receiving_count + k, key) ∷ []);
          reaches = snoc;
        };
      }
