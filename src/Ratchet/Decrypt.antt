-- ===== src/Ratchet/Decrypt.antt =====
-- ratchet/state.rs: `decrypt` and the three ways that a frame is decrypted.
use mef.Prelude.{
  ℕ, not, ◌||◌, ◌&&◌, Bool, Bytes, length, ltb, ◌==◌, bytes_eq, if◌then◌else◌, u32_max, usize_max,
  checked_add,
}
use mef.Error.{
  fail_if, ok_or, counter_exhausted, ratchet_state_mismatch, message_key_consumed,
  skipped_key_limit_exceeded,
}
use mef.Effect.{M, lift, get, modify, pure, inside, ◌>>=◌, ◌>>◌}
use mef.Vec.{position, elem_at, remove}
use mef.Crypto.Suite
use mef.Crypto.Primitives.{Primitives}
use mef.Keys.Dh.{DhPublicKey, generate, diffie_hellman}
use mef.Frame.Format.{InnerFrame, open_frame}
use mef.Ratchet.Schedule.{derive_range, derive_for_message, root_step}
use mef.Ratchet.State.{RatchetState, SkippedMessageKey, next_generation, add_skipped}

abbrev pub is_entry : DhPublicKey → ℕ → SkippedMessageKey → Bool
is_entry remote number entry = bytes_eq entry.remote_dh remote && entry.message_number == number

unfoldable pub decrypt_skipped : Primitives → DhPublicKey → ℕ → InnerFrame → M RatchetState Bytes
decrypt_skipped p remote_dh message_number frame = do
  s ← get
  index ← lift (ok_or (position (is_entry remote_dh message_number) s.skipped) message_key_consumed)
  entry ← lift (elem_at index s.skipped)
  plaintext ← lift (open_frame p frame entry.key)
  rest ← lift (remove index s.skipped)
  modify (λ s. record s { skipped = rest })
  modify next_generation
  pure plaintext

unfoldable pub decrypt_ahead : Primitives → DhPublicKey → InnerFrame → M RatchetState Bytes
decrypt_ahead p remote_dh frame = do
  s ← get
  let target = frame.header.message_number
  (next_chain, message_key, newly_skipped) ←
      lift (derive_for_message p s.receiving_chain s.receiving_count target (length s.skipped))
  plaintext ← lift (open_frame p frame message_key)
  modify (λ s. record s { receiving_chain = next_chain })
  count ← lift (ok_or (checked_add u32_max target 1) counter_exhausted)
  modify (λ s. record s { receiving_count = count })
  modify (add_skipped remote_dh newly_skipped)
  modify next_generation
  pure plaintext

-- `decrypt_same_ratchet`: what follows its early return is `decrypt_ahead`.
unfoldable pub decrypt_same_ratchet : Primitives → DhPublicKey → InnerFrame → M RatchetState Bytes
decrypt_same_ratchet p remote_dh frame = do
  s ← get
  if ltb frame.header.message_number s.receiving_count
      then decrypt_skipped p remote_dh frame.header.message_number frame
      else decrypt_ahead p remote_dh frame

unfoldable pub decrypt_new_ratchet : Primitives → DhPublicKey → InnerFrame → M RatchetState Bytes
decrypt_new_ratchet p remote_dh frame = do
  s ← get
  (_, old_skipped) ← lift (
      derive_range p s.receiving_chain s.receiving_count frame.header.previous_chain_len
        (length s.skipped))
  received ← lift (diffie_hellman p s.dh_pair.secret remote_dh)
  (root_after_receive, next_receiving_chain) ← lift (root_step p s.root_key received)
  next_pair ← inside (generate p)
  sent ← lift (diffie_hellman p next_pair.secret remote_dh)
  (root_after_send, next_sending_chain) ← lift (root_step p root_after_receive sent)
  extra_capacity ← lift (
      ok_or (checked_add usize_max (length s.skipped) (length old_skipped))
        skipped_key_limit_exceeded)
  (receiving_chain, message_key, new_skipped) ←
      lift (derive_for_message p next_receiving_chain 0 frame.header.message_number extra_capacity)
  plaintext ← lift (open_frame p frame message_key)
  modify (add_skipped s.remote_dh old_skipped)
  modify (add_skipped remote_dh new_skipped)
  modify (λ s. record s {
    root_key = root_after_send;
    receiving_chain = receiving_chain;
    sending_chain = next_sending_chain;
    dh_pair = next_pair;
    remote_dh = remote_dh;
    previous_sending_chain_len = s.sending_count;
    sending_count = 0;
  })
  count ← lift (ok_or (checked_add u32_max frame.header.message_number 1) counter_exhausted)
  modify (λ s. record s { receiving_count = count })
  modify next_generation
  pure plaintext

unfoldable pub decrypt : Primitives → InnerFrame → M RatchetState Bytes
decrypt p frame = do
  s ← get
  lift (
      fail_if
        (not (bytes_eq frame.header.session_id s.session_id)
          || not (Suite.same frame.ciphertext.suite s.suite))
        ratchet_state_mismatch)
  if bytes_eq frame.header.ratchet_public s.remote_dh
      then decrypt_same_ratchet p frame.header.ratchet_public frame
      else decrypt_new_ratchet p frame.header.ratchet_public frame
