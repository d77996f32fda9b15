-- ===== src/Envelope/Replay.antt =====
-- envelope/replay.rs.
pub mod Once
use mef.Prelude.{ℕ, List, [], ◌∷◌, ◌++◌, Bool, length, leb, ◌==◌, bytes_eq, if◌then◌else◌}
use mef.Error as Error
use mef.Error.{Result, ok, fail_if, invalid_length, invalid_state, replay_detected}
use mef.Effect.{M, lift, get, modify, ◌>>=◌, ◌>>◌}
use mef.Vec.{any}
use mef.Envelope.Capability.{TransportMessageId}

pub record ReplayCache : Type 0 where
  pub capacity : ℕ
  pub entries : List (TransportMessageId × ℕ)

unfoldable pub new : ℕ → Result ReplayCache
new capacity =
    if capacity == 0
    then Error.err invalid_length
    else ok (record { capacity = capacity; entries = [] })

-- `entries.retain(|(_, expires_at)| *expires_at >= now_unix)`.
unfoldable pub retain : ℕ → List (TransportMessageId × ℕ) → List (TransportMessageId × ℕ)
retain now [] = []
retain now ((message_id, expires_at) ∷ entries) =
    if leb now expires_at then (message_id, expires_at) ∷ retain now entries else retain now entries

abbrev pub is_id : TransportMessageId → TransportMessageId × ℕ → Bool
is_id message_id (existing, expires_at) = bytes_eq existing message_id

unfoldable pub check_and_insert : TransportMessageId → ℕ → ℕ → M ReplayCache (Unit {0})
check_and_insert message_id expires_at now = do
  modify (λ c. record c { entries = retain now c.entries })
  c ← get
  lift (fail_if (any (is_id message_id) c.entries) replay_detected)
  lift (fail_if (leb c.capacity (length c.entries)) invalid_state)
  modify (λ c. record c { entries = c.entries ++ (message_id, expires_at) ∷ [] })

-- `len` and `is_empty`.
abbrev pub len : ReplayCache → ℕ
len c = length c.entries

abbrev pub is_empty : ReplayCache → Bool
is_empty c = length c.entries == 0
