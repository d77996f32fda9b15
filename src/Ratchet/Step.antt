-- ===== src/Ratchet/Step.antt =====
-- ratchet/state.rs: the first frame of a new ratchet key, at a peer that makes its ratchet step.
use mef.Prelude.{
  ℕ, zero, suc, ◌+◌, ◌-◌, ◌≤◌, ◌≡◌, ◌≢◌, true, false, not, refl, sym, ap, ◌∙◌, arith, inl, inr, [],
  ◌∷◌, ◌++◌, Bytes, length, ltb-false, leb-true, bytes_eq_refl, bytes_eq, bytes_eq_sound, u32_max,
  usize_max, codes, Bool-cases,
}
use mef.Error.{ok, >>=-ok_inv, fail_if, non_contributory_key_agreement}
use mef.Limits.{max_skipped_keys}
use mef.Crypto.Suite
use mef.Crypto.Suite.{nonce_len}
use mef.Crypto.Primitives.{Primitives, IsKdf, IsDh}
use mef.Crypto.Kdf.{derive_secret, domain_label}
use mef.Keys.Dh.{DhKeyPair, generate, diffie_hellman}
use mef.Frame.Format.{InnerFrame, open_frame}
use mef.Handshake.Valid.{IsPair}
use mef.Handshake.Refines.{generate-cases}
use mef.Ratchet.Schedule.{
  SkippedKeys, root_label, root_chain_label, chain_step, root_step, derive_keys, exceeds_limit,
  derive_range, derive_for_message,
}
use mef.Ratchet.Schedule.Chain.{derive_for_message-eq}
use mef.Ratchet.State.{RatchetState, next_generation, skipped_entries}
use mef.Ratchet.Decrypt.{decrypt, decrypt_new_ratchet}
use mef.Ratchet.Exchange.{header_of}

pub root_step-eq :
    (p : Primitives) (root shared : Bytes)
    → IsKdf p
    → length shared ≡ 32
    → (next : Bytes) × (chain : Bytes) × (root_step p root shared ≡ ok (next, chain))
unfolding root_step derive_secret
root_step-eq p root shared kdf len =
    let (next, next_made, _) = kdf.expands root shared (domain_label (codes "kdf") root_label) in
    let (chain, chain_made, _) =
      kdf.expands next shared (domain_label (codes "kdf") root_chain_label) in
    (next, chain, rw (len, next_made, chain_made) refl)

pub length-diffie_hellman :
    (p : Primitives) (secret peer shared : Bytes)
    → IsDh p
    → diffie_hellman p secret peer ≡ ok shared
    → length shared ≡ 32
unfolding diffie_hellman
length-diffie_hellman p secret peer shared dh made =
    let (_, done, _) =
      >>=-ok_inv
        (fail_if (not (p.was_contributory (p.x25519 secret peer))) non_contributory_key_agreement) _
        made in
    let same : p.x25519 secret peer ≡ shared = cc in rw (← same) (dh.length-x25519 secret peer)

derive_range-eq :
    (p : Primitives) (k : ℕ) (chain last : Bytes) (n existing : ℕ) (keys : SkippedKeys)
    → derive_keys p chain n k ≡ ok (last, keys)
    → existing + k ≤ max_skipped_keys
    → derive_range p chain n (n + k) existing ≡ ok (last, keys)
unfolding derive_range
derive_range-eq p k chain last n existing keys h room =
    let rounds : n + k - n ≡ k = omega arith in
    let within : exceeds_limit existing k ≡ false = ground arith in
    rw (ltb-false (n + k) n (omega arith), rounds, leb-true k usize_max (omega arith), within, h)
      refl

length-derive_keys :
    (p : Primitives) (k : ℕ) (chain last : Bytes) (n : ℕ) (keys : SkippedKeys)
    → derive_keys p chain n k ≡ ok (last, keys)
    → length keys ≡ k
unfolding derive_keys
length-derive_keys p zero chain last n keys h = let same : keys ≡ [] = cc in rw same refl
length-derive_keys p (suc k) chain last n keys h =
    let ((chain', first), h', stepped) = >>=-ok_inv (chain_step p chain) _ h in
    let ((last', rest), h'', derived) = >>=-ok_inv (derive_keys p chain' (n + 1) k) _ h' in
    let first_of : keys ≡ (n, first) ∷ rest = cc in
    let ih = length-derive_keys p k chain' last' (n + 1) rest derived in rw first_of (omega arith)

pub generate-IsPair :
    (p : Primitives) (i : ℕ) (key : DhKeyPair)
    → generate p tt i ≡ (ok key, tt, i + 1)
    → IsPair p key
generate-IsPair p i key made = elim (generate-cases p i) [
  | inl dry ↦ cc
  | inr (other, drawn, pair) ↦ let same : other ≡ key = cc in rw (← same) pair
]

-- `a` has moved to a new key that `b` has not seen. `k` frames of `a`'s chain before, and `j` of
-- `b`'s, have not arrived.
pub record Pending (p : Primitives) (k j : ℕ) (a b : RatchetState) : Type 0 where
  pub session : b.session_id ≡ a.session_id
  pub suite_same : b.suite ≡ a.suite
  pub first : a.sending_count ≡ 0
  pub behind : a.previous_sending_chain_len ≡ b.receiving_count + k
  pub old_end : Bytes
  pub old_keys : SkippedKeys
  pub old_reached : derive_keys p b.receiving_chain b.receiving_count k ≡ ok (old_end, old_keys)
  pub shared : Bytes
  pub agreed : diffie_hellman p b.dh_pair.secret a.dh_pair.public ≡ ok shared
  pub stepped : root_step p b.root_key shared ≡ ok (a.root_key, a.sending_chain)
  pub fresh : a.dh_pair.public ≢ b.remote_dh
  pub a_pair : IsPair p a.dh_pair
  pub number : b.sending_count ≡ a.receiving_count + j
  pub reply_keys : SkippedKeys
  pub replies :
      derive_keys p a.receiving_chain a.receiving_count j ≡ ok (b.sending_chain, reply_keys)

-- The peer's state behind its ratchet step.
abbrev pub stepped_state :
    RatchetState → DhKeyPair → Bytes → Bytes → Bytes → SkippedKeys → InnerFrame → RatchetState
stepped_state b next root receiving sending keys f = next_generation (record b {
  root_key = root;
  sending_chain = sending;
  receiving_chain = receiving;
  dh_pair = next;
  remote_dh = f.header.ratchet_public;
  previous_sending_chain_len = b.sending_count;
  sending_count = 0;
  receiving_count = f.header.message_number + 1;
  skipped = (b.skipped ++ skipped_entries b.remote_dh keys) ++ [];
})

pub decrypt-step :
    (p : Primitives) (k j : ℕ) (a b : RatchetState) (w : Pending p k j a b) (f : InnerFrame)
    (next : DhKeyPair) (sent root chain receiving key plaintext : Bytes) (i : ℕ)
    → f.header ≡ header_of f.header.kind a
    → f.ciphertext.suite ≡ a.suite
    → length b.skipped + k ≤ max_skipped_keys
    → generate p tt i ≡ (ok next, tt, i + 1)
    → diffie_hellman p next.secret a.dh_pair.public ≡ ok sent
    → root_step p a.root_key sent ≡ ok (root, chain)
    → chain_step p a.sending_chain ≡ ok (receiving, key)
    → open_frame p f key ≡ ok plaintext
    → decrypt p f b i
      ≡ (ok plaintext, stepped_state b next root receiving chain w.old_keys f, i + 1)
unfolding decrypt decrypt_new_ratchet derive_keys
decrypt-step p k j a b w f next sent root chain receiving key plaintext i kept suite_kept room drawn
      answered next_step stepped opened =
    let same_session : bytes_eq f.header.session_id b.session_id ≡ true =
      rw (ap (λ h. h.session_id) kept, ← w.session) (bytes_eq_refl b.session_id) in
    let same_suite : Suite.same f.ciphertext.suite b.suite ≡ true =
      rw (suite_kept, ← w.suite_same) (Suite.same_refl b.suite) in
    let key_is : f.header.ratchet_public ≡ a.dh_pair.public = ap (λ h. h.ratchet_public) kept in
    let other : bytes_eq f.header.ratchet_public b.remote_dh ≡ false =
      elim (Bool-cases (bytes_eq f.header.ratchet_public b.remote_dh)) [
        | inl same ↦
            absurd (w.fresh (sym key_is ∙ bytes_eq_sound f.header.ratchet_public b.remote_dh same))
        | inr new ↦ new
      ] in
    let range : derive_range p b.receiving_chain b.receiving_count f.header.previous_chain_len
          (length b.skipped)
        ≡ ok (w.old_end, w.old_keys) =
      rw (ap (λ h. h.previous_chain_len) kept, w.behind)
        (derive_range-eq p k b.receiving_chain w.old_end b.receiving_count (length b.skipped)
          w.old_keys w.old_reached room) in
    let total = length b.skipped + length w.old_keys in
    let few : length w.old_keys ≡ k =
      length-derive_keys p k b.receiving_chain w.old_end b.receiving_count w.old_keys
        w.old_reached in
    let target : derive_for_message p a.sending_chain 0 f.header.message_number total
        ≡ ok (receiving, key, []) =
      rw (ap (λ h. h.message_number) kept, w.first)
        (derive_for_message-eq p 0 a.sending_chain a.sending_chain receiving key 0 total [] refl
          stepped (omega arith)) in
    let agreed : diffie_hellman p b.dh_pair.secret f.header.ratchet_public ≡ ok w.shared =
      rw key_is w.agreed in
    let again : diffie_hellman p next.secret f.header.ratchet_public ≡ ok sent =
      rw key_is answered in
    let low : f.header.message_number + 1 ≤ u32_max =
      omega (arith, ap (λ h. h.message_number) kept, w.first) in
    rw
      (
        same_session,
        same_suite,
        other,
        range,
        agreed,
        w.stepped,
        drawn,
        again,
        next_step,
        leb-true total usize_max (omega arith),
        target,
        opened,
        leb-true (f.header.message_number + 1) u32_max low,
      )
      refl
