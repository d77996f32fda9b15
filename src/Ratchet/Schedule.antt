-- ===== src/Ratchet/Schedule.antt =====
-- ratchet/schedule.rs.
pub mod Laws
pub mod Chain
use mef.Prelude.{
  ℕ, zero, suc, ◌+◌, ◌-◌, Bool, true, not, none, some, List, [], ◌∷◌, Bytes, ltb, leb, codes,
  usize_max, checked_add, try_from,
}
use mef.Error.{
  Result, ok, ◌>>=◌, ◌>>◌, fail_if, ok_or, ratchet_state_mismatch, skipped_key_limit_exceeded,
}
use mef.Limits.{max_skipped_keys}
use mef.Crypto.Primitives.{Primitives}
use mef.Crypto.Kdf.{derive_secret, derive_aead_key}

abbrev pub root_label : Bytes
root_label = codes "ratchet-root-v1"

abbrev pub root_chain_label : Bytes
root_chain_label = codes "ratchet-root-chain-v1"

abbrev pub chain_key_label : Bytes
chain_key_label = codes "ratchet-chain-next-v1"

abbrev pub message_key_label : Bytes
message_key_label = codes "ratchet-message-key-v1"

-- A message number and its key.
abbrev pub SkippedKeys : Type 0
SkippedKeys = List (ℕ × Bytes)

-- The chain after one message, and the key of that message.
unfoldable pub chain_step : Primitives → Bytes → Result (Bytes × Bytes)
chain_step p chain_key = do
  next ← derive_secret p chain_key chain_key_label (2 ∷ [])
  key ← derive_aead_key p chain_key message_key_label (1 ∷ [])
  ok (next, key)

-- The next root, and the chain that starts from it.
unfoldable pub root_step : Primitives → Bytes → Bytes → Result (Bytes × Bytes)
root_step p root_key dh_output = do
  next_root ← derive_secret p root_key root_label dh_output
  chain_key ← derive_secret p next_root root_chain_label dh_output
  ok (next_root, chain_key)

-- `for number in start..end_exclusive`, by the number of rounds.
unfoldable pub derive_keys : Primitives → Bytes → ℕ → ℕ → Result (Bytes × SkippedKeys)
derive_keys p current number zero = ok (current, [])
derive_keys p current number (suc rounds) = do
  (next, key) ← chain_step p current
  (last, rest) ← derive_keys p next (number + 1) rounds
  ok (last, (number, key) ∷ rest)

-- `existing.checked_add(additional).filter(|total| *total <= MAX_SKIPPED_KEYS).is_none()`.
abbrev pub exceeds_limit : ℕ → ℕ → Bool
exceeds_limit existing additional = elim (checked_add usize_max existing additional) [
  | none ↦ true
  | some total ↦ not (leb total max_skipped_keys)
]

unfoldable pub derive_range : Primitives → Bytes → ℕ → ℕ → ℕ → Result (Bytes × SkippedKeys)
unfolding derive_keys
derive_range p chain_key start end_exclusive existing_skipped = do
  fail_if (ltb end_exclusive start) ratchet_state_mismatch
  additional ← ok_or (try_from usize_max (end_exclusive - start)) skipped_key_limit_exceeded
  fail_if (exceeds_limit existing_skipped additional) skipped_key_limit_exceeded
  derive_keys p chain_key start (end_exclusive - start)

-- The chain behind the target, the target's key, and the keys before it.
unfoldable pub derive_for_message :
    Primitives → Bytes → ℕ → ℕ → ℕ → Result (Bytes × Bytes × SkippedKeys)
unfolding derive_range
derive_for_message p chain_key current_count target existing_skipped = do
  (before_target, skipped) ← derive_range p chain_key current_count target existing_skipped
  (next_chain, message_key) ← chain_step p before_target
  ok (next_chain, message_key, skipped)
