-- ===== src/Ratchet/Schedule/Chain.antt =====
-- ratchet/schedule.rs: a chain that is some steps ahead of another.
use mef.Prelude.{
  ℕ, zero, suc, false, ◌+◌, ◌-◌, ◌≤◌, ◌≡◌, refl, ap, ◌∙◌, arith, [], ◌∷◌, ◌++◌, Bytes, length,
  codes, ltb-false, leb-true, usize_max,
}
use mef.Error.{ok, >>=-ok_inv}
use mef.Limits.{max_skipped_keys}
use mef.Crypto.Primitives.{Primitives, IsKdf}
use mef.Crypto.Kdf.{domain_label, derive_secret, derive_aead_key}
use mef.Ratchet.Schedule.{
  SkippedKeys, chain_key_label, message_key_label, chain_step, derive_keys, exceeds_limit,
  derive_range, derive_for_message,
}

module _ (p : Primitives) where
  pub chain_step-eq :
      (chain : Bytes)
      → IsKdf p
      → (next : Bytes) × (key : Bytes) × (chain_step p chain ≡ ok (next, key)) × (length key ≡ 32)
  unfolding chain_step derive_secret derive_aead_key
  chain_step-eq chain kdf =
      let (next, next_made, _) =
        kdf.expands chain (2 ∷ []) (domain_label (codes "kdf") chain_key_label) in
      let (key, key_made, key_len) =
        kdf.expands chain (1 ∷ []) (domain_label (codes "kdf") message_key_label) in
      (next, key, rw (next_made, key_made) refl, key_len)

  -- One step more at the end.
  pub derive_keys-snoc :
      (k : ℕ) (chain last next key : Bytes) (n : ℕ) (keys : SkippedKeys)
      → derive_keys p chain n k ≡ ok (last, keys)
      → chain_step p last ≡ ok (next, key)
      → derive_keys p chain n (suc k) ≡ ok (next, keys ++ ((n + k, key) ∷ []))
  unfolding derive_keys
  derive_keys-snoc zero chain last next key n keys h s =
      let start : chain ≡ last = cc in
      let none_yet : keys ≡ [] = cc in
      let at : n + 0 ≡ n = omega arith in rw (start, s, none_yet, at) refl
  derive_keys-snoc (suc k) chain last next key n keys h s =
      let ((chain', first), h', stepped) = >>=-ok_inv (chain_step p chain) _ h in
      let ((last', rest), h'', derived) = >>=-ok_inv (derive_keys p chain' (n + 1) k) _ h' in
      let same : last' ≡ last = cc in
      let first_of : keys ≡ (n, first) ∷ rest = cc in
      let ih =
        derive_keys-snoc k chain' last next key (n + 1) rest (derived ∙ ap (λ l. ok (l, rest)) same)
          s in
      let at : n + suc k ≡ n + 1 + k = omega arith in rw (stepped, first_of, at) (rw ih refl)

  -- What a receiver derives for the message that the chain `k` steps ahead stands at.
  pub derive_for_message-eq :
      (k : ℕ) (chain last next key : Bytes) (n existing : ℕ) (keys : SkippedKeys)
      → derive_keys p chain n k ≡ ok (last, keys)
      → chain_step p last ≡ ok (next, key)
      → existing + k ≤ max_skipped_keys
      → derive_for_message p chain n (n + k) existing ≡ ok (next, key, keys)
  unfolding derive_for_message derive_range
  derive_for_message-eq k chain last next key n existing keys h s room =
      let rounds : n + k - n ≡ k = omega arith in
      let within : exceeds_limit existing k ≡ false = ground arith in
      rw
        (
          ltb-false (n + k) n (omega arith),
          rounds,
          leb-true k usize_max (omega arith),
          within,
          h,
          s,
        )
        refl
