-- ===== src/Ratchet/Schedule/Laws.antt =====
-- ratchet/schedule.rs: the ranges that the schedule grants and refuses.
use mef.Prelude.{◌⊎◌, ℕ, zero, suc, ◌+◌, ◌-◌, ◌≤◌, ◌≡◌, refl, ap, [], ◌∷◌, arith, Bytes, length}
use mef.Error.{ok, err, Ensures, Ensures-bind, Ensures-cases, MefError}
use mef.Limits.{max_skipped_keys}
use mef.Crypto.Primitives.{Primitives}
use mef.Crypto.Kdf.{derive_secret, derive_aead_key}
use mef.Ratchet.Schedule.{
  SkippedKeys, chain_step, root_step, derive_keys, derive_range, derive_for_message,
}

-- The message numbers from `n` on, one for each key.
abbrev pub IsRun : ℕ → SkippedKeys → Type 0
IsRun n [] = Unit {0}
IsRun n ((m, key) ∷ keys) = (m ≡ n) × IsRun (n + 1) keys

abbrev Runs : ℕ → ℕ → Bytes × SkippedKeys → Type 0
Runs n rounds (last, keys) = IsRun n keys × (length keys ≡ rounds)

-- What a granted range is: it starts below its end, gives one key for each number in it, and
-- stays within the limit together with the `existing` keys.
abbrev pub Grants : ℕ → ℕ → ℕ → SkippedKeys → Type 0
Grants start end existing keys =
    (start ≤ end)
    × IsRun start keys
    × (start + length keys ≡ end)
    × (existing + length keys ≤ max_skipped_keys)

module _ (p : Primitives) where
  pub chain_step-Ensures : (chain : Bytes) → Ensures (λ _. Unit {0}) (chain_step p chain)
  unfolding chain_step derive_secret derive_aead_key
  chain_step-Ensures chain = ground arith

  pub root_step-Ensures : (root dh : Bytes) → Ensures (λ _. Unit {0}) (root_step p root dh)
  unfolding root_step derive_secret
  root_step-Ensures root dh = ground arith

  derive_keys-Ensures :
      (rounds : ℕ) (current : Bytes) (n : ℕ)
      → Ensures (Runs n rounds) (derive_keys p current n rounds)
  unfolding derive_keys
  derive_keys-Ensures zero current n = (tt, refl)
  derive_keys-Ensures (suc rounds) current n =
      Ensures-bind (λ _. Unit {0}) (Runs n (suc rounds)) (chain_step p current) _
        (chain_step-Ensures current)
        λ (next, key) _.
          Ensures-bind (Runs (n + 1) rounds) (Runs n (suc rounds))
            (derive_keys p next (n + 1) rounds) _ (derive_keys-Ensures rounds next (n + 1))
            λ (last, rest) (run, len). ((refl, run), ap suc len)

  pub derive_range-Ensures :
      (chain : Bytes) (start end existing : ℕ)
      → Ensures
          (λ (last, keys). Grants start end existing keys)
          (derive_range p chain start end existing)
  unfolding derive_range
  derive_range-Ensures chain start end existing =
      ground (arith, derive_keys-Ensures (end - start) chain start)

  -- Deriving the key of a message ends without a panic; if it succeeds, the message is at or after
  -- the chain's position, there is one skipped key for each number before it, in order, and with
  -- the existing ones they stay within the limit.
  pub derive_for_message-Ensures :
      (chain : Bytes) (start end existing : ℕ)
      → Ensures
          (λ (next, key, keys). Grants start end existing keys)
          (derive_for_message p chain start end existing)
  unfolding derive_for_message
  derive_for_message-Ensures chain start end existing =
      Ensures-bind (λ (last, keys). Grants start end existing keys)
        (λ (next, key, keys). Grants start end existing keys)
        (derive_range p chain start end existing) _ (derive_range-Ensures chain start end existing)
        λ (last, keys) granted.
          Ensures-bind (λ _. Unit {0}) (λ (next, key, keys). Grants start end existing keys)
            (chain_step p last) _ (chain_step-Ensures last) λ _ _. granted

  -- The same, to split on.
  pub derive_range-cases :
      (chain : Bytes) (start end existing : ℕ)
      → ((r : Bytes × SkippedKeys) × (derive_range p chain start end existing ≡ ok r)
          × Grants start end existing r.1)
        ⊎ ((e : MefError) × (derive_range p chain start end existing ≡ err e))
  derive_range-cases chain start end existing =
      Ensures-cases (λ (r : Bytes × SkippedKeys). Grants start end existing r.1)
        (derive_range p chain start end existing) (derive_range-Ensures chain start end existing)

  pub derive_for_message-cases :
      (chain : Bytes) (start end existing : ℕ)
      → ((r : Bytes × Bytes × SkippedKeys) × (derive_for_message p chain start end existing ≡ ok r)
          × Grants start end existing r.2)
        ⊎ ((e : MefError) × (derive_for_message p chain start end existing ≡ err e))
  derive_for_message-cases chain start end existing =
      Ensures-cases (λ (r : Bytes × Bytes × SkippedKeys). Grants start end existing r.2)
        (derive_for_message p chain start end existing)
        (derive_for_message-Ensures chain start end existing)
