-- ===== src/Ratchet/State.antt =====
-- ratchet/state.rs: the state, `encrypt` and `rotate_sending_ratchet`.
use mef.Prelude.{ℕ, List, [], ◌∷◌, ◌++◌, Bytes, u32_max, u64_max, checked_add, saturating_add}
use mef.Error.{ok_or, counter_exhausted}
use mef.Effect.{M, lift, get, modify, pure, inside, ◌>>=◌, ◌>>◌}
use mef.Crypto.Suite.{AeadSuite}
use mef.Crypto.Primitives.{Primitives}
use mef.Keys.Dh.{DhKeyPair, DhPublicKey, generate, diffie_hellman}
use mef.Frame.Header.{FrameKind}
use mef.Frame.Format.{InnerFrame}
use mef.Frame.Seal.{seal_frame}
use mef.Ratchet.Schedule.{SkippedKeys, chain_step, root_step}

pub record SkippedMessageKey : Type 0 where
  pub remote_dh : DhPublicKey
  pub message_number : ℕ
  pub key : Bytes

pub record RatchetState : Type 0 where
  pub session_id : Bytes
  pub root_key : Bytes
  pub sending_chain : Bytes
  pub receiving_chain : Bytes
  pub dh_pair : DhKeyPair
  pub remote_dh : DhPublicKey
  pub previous_sending_chain_len : ℕ
  pub sending_count : ℕ
  pub receiving_count : ℕ
  pub generation : ℕ
  pub suite : AeadSuite
  pub skipped : List SkippedMessageKey

-- `self.generation = self.generation.saturating_add(1)`.
abbrev pub next_generation : RatchetState → RatchetState
next_generation s = record s { generation = saturating_add u64_max s.generation 1 }

unfoldable pub encrypt : Primitives → FrameKind → Bytes → M RatchetState InnerFrame
encrypt p kind plaintext = do
  s ← get
  (next_chain, message_key) ← lift (chain_step p s.sending_chain)
  frame ← inside (
      seal_frame p message_key s.suite
        (record {
          kind = kind;
          session_id = s.session_id;
          ratchet_public = s.dh_pair.public;
          previous_chain_len = s.previous_sending_chain_len;
          message_number = s.sending_count;
        })
        plaintext)
  modify (λ s. record s { sending_chain = next_chain })
  count ← lift (ok_or (checked_add u32_max s.sending_count 1) counter_exhausted)
  modify (λ s. record s { sending_count = count })
  modify next_generation
  pure frame

unfoldable pub rotate_sending_ratchet : Primitives → M RatchetState (Unit {0})
rotate_sending_ratchet p = do
  s ← get
  next_pair ← inside (generate p)
  shared ← lift (diffie_hellman p next_pair.secret s.remote_dh)
  (next_root, next_sending_chain) ← lift (root_step p s.root_key shared)
  modify (λ s. record s {
    root_key = next_root;
    sending_chain = next_sending_chain;
    dh_pair = next_pair;
    previous_sending_chain_len = s.sending_count;
    sending_count = 0;
  })
  modify next_generation

-- `add_skipped`, as a change of the list.
abbrev pub skipped_entries : DhPublicKey → SkippedKeys → List SkippedMessageKey
skipped_entries remote [] = []
skipped_entries remote ((number, key) ∷ keys) =
    record { remote_dh = remote; message_number = number; key = key } ∷ skipped_entries remote keys

abbrev pub add_skipped : DhPublicKey → SkippedKeys → RatchetState → RatchetState
add_skipped remote keys s = record s { skipped = s.skipped ++ skipped_entries remote keys }
