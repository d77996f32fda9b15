-- ===== src/Ratchet/Persistence/Codec.antt =====
-- ratchet/persistence.rs: `encode_state` and `decode_state`.
use mef.Prelude.{
  ℕ, zero, suc, ◌+◌, not, List, [], ◌∷◌, ◌++◌, Bytes, length, ltb, ◌==◌, to_be, from_be, u16_max,
  usize_max, if◌then◌else◌, checked_add, checked_mul, try_from,
}
use mef.Error.{
  Result, ok, err, ◌>>=◌, ◌>>◌, fail_if, ok_or, invalid_frame, invalid_length, invalid_state,
}
use mef.Wire.{index, copy_at, concat}
use mef.Vec.{any}
use mef.Limits.{max_skipped_keys}
use mef.Crypto.Suite
use mef.Crypto.Suite.{AeadSuite, x_cha_cha20_poly1305}
use mef.Crypto.Primitives.{Primitives}
use mef.Keys.Dh.{from_secret}
use mef.Ratchet.State.{RatchetState, SkippedMessageKey}
use mef.Ratchet.Decrypt.{is_entry}

abbrev pub version : ℕ
version = 2

abbrev pub legacy_version : ℕ
legacy_version = 1

abbrev pub plaintext_fixed_len_v1 : ℕ
plaintext_fixed_len_v1 = 32 + 32 + 32 + 32 + 32 + 32 + 4 + 4 + 4 + 2

abbrev pub plaintext_fixed_len_v2 : ℕ
plaintext_fixed_len_v2 = plaintext_fixed_len_v1 + 1

-- What `encode_state` appends in front of the entries.
abbrev pub state_segments : RatchetState → ℕ → List Bytes
state_segments s skipped_len =
    s.session_id
    ∷ s.root_key
    ∷ s.sending_chain
    ∷ s.receiving_chain
    ∷ s.dh_pair.secret
    ∷ s.remote_dh
    ∷ to_be 4 s.previous_sending_chain_len
    ∷ to_be 4 s.sending_count
    ∷ to_be 4 s.receiving_count
    ∷ (Suite.id s.suite ∷ [])
    ∷ to_be 2 skipped_len
    ∷ []

-- `for entry in &state.skipped`.
unfoldable pub entry_segments : List SkippedMessageKey → List Bytes
entry_segments [] = []
entry_segments (entry ∷ entries) =
    entry.remote_dh ∷ to_be 4 entry.message_number ∷ entry.key ∷ entry_segments entries

unfoldable pub encode_state : RatchetState → Result Bytes
encode_state s = do
  fail_if (ltb max_skipped_keys (length s.skipped)) invalid_state
  skipped_len ← ok_or (try_from u16_max (length s.skipped)) invalid_state
  entries_len ← ok_or (checked_mul usize_max skipped_len 68) invalid_length
  ok_or (checked_add usize_max plaintext_fixed_len_v2 entries_len) invalid_length
  ok (concat (state_segments s skipped_len ++ entry_segments s.skipped))

-- The rounds of `for index in 0..skipped_count` from `i` on, with the keys read so far.
unfoldable pub decode_entries :
    Bytes → ℕ → ℕ → List SkippedMessageKey → ℕ → Result (List SkippedMessageKey)
decode_entries bytes fixed_len i skipped zero = ok skipped
decode_entries bytes fixed_len i skipped (suc rounds) = do
  scaled ← ok_or (checked_mul usize_max i 68) invalid_length
  let offset = fixed_len + scaled
  remote_dh ← copy_at offset 32 bytes
  number ← copy_at (offset + 32) 4 bytes
  fail_if (any (is_entry remote_dh (from_be number)) skipped) invalid_state
  key ← copy_at (offset + 36) 32 bytes
  let entry : SkippedMessageKey = record {
    remote_dh = remote_dh;
    message_number = from_be number;
    key = key;
  }
  decode_entries bytes fixed_len (i + 1) (skipped ++ entry ∷ []) rounds

-- `match version`.
unfoldable pub fixed_len_of : ℕ → Result ℕ
fixed_len_of v =
    if v == legacy_version
    then ok plaintext_fixed_len_v1
    else if v == version
    then ok plaintext_fixed_len_v2
    else err invalid_frame

-- The suite of the snapshot, and where its number of keys stands.
unfoldable pub suite_and_offset : Bytes → ℕ → Result (AeadSuite × ℕ)
suite_and_offset bytes v =
    if v == legacy_version
    then ok (x_cha_cha20_poly1305, 204)
    else (index 204 bytes >>= λ byte. Suite.from_id byte >>= λ suite. ok (suite, 205))

unfoldable pub decode_state : Primitives → Bytes → ℕ → ℕ → Result RatchetState
unfolding decode_entries fixed_len_of suite_and_offset
decode_state p bytes generation v = do
  fixed_len ← fixed_len_of v
  fail_if (ltb (length bytes) fixed_len) invalid_frame
  (suite, count_offset) ← suite_and_offset bytes v
  count_bytes ← copy_at count_offset 2 bytes
  let skipped_count = from_be count_bytes
  fail_if (ltb max_skipped_keys skipped_count) invalid_state
  entries_len ← ok_or (checked_mul usize_max skipped_count 68) invalid_length
  expected ← ok_or (checked_add usize_max fixed_len entries_len) invalid_length
  fail_if (not (length bytes == expected)) invalid_frame
  session_id ← copy_at 0 32 bytes
  root_key ← copy_at 32 32 bytes
  sending_chain ← copy_at 64 32 bytes
  receiving_chain ← copy_at 96 32 bytes
  secret ← copy_at 128 32 bytes
  remote_dh ← copy_at 160 32 bytes
  previous_sending_chain_len ← copy_at 192 4 bytes
  sending_count ← copy_at 196 4 bytes
  receiving_count ← copy_at 200 4 bytes
  encoded_bytes ← copy_at count_offset 2 bytes
  fail_if (not (from_be encoded_bytes == skipped_count)) invalid_frame
  skipped ← decode_entries bytes fixed_len 0 [] skipped_count
  ok (record {
    session_id = session_id;
    root_key = root_key;
    sending_chain = sending_chain;
    receiving_chain = receiving_chain;
    dh_pair = from_secret p secret;
    remote_dh = remote_dh;
    previous_sending_chain_len = from_be previous_sending_chain_len;
    sending_count = from_be sending_count;
    receiving_count = from_be receiving_count;
    generation = generation;
    suite = suite;
    skipped = skipped;
  })
