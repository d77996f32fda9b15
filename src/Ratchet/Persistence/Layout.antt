-- ===== src/Ratchet/Persistence/Layout.antt =====
-- ratchet/persistence.rs: the sessions that the types of the source allow, and the layout of
-- `encode_state`.
use mef.Prelude.{
  ℕ, ◌+◌, ◌*◌, ◌≡◌, refl, ◌∙◌, List, [], ◌∷◌, ◌++◌, arith, Bytes, All, length, take, to_be,
  length-to_be, leb-true, ltb-false, u16_max, usize_max,
}
use mef.Error.{ok}
use mef.Wire.{concat, index, copy_at, total}
use mef.Wire.Laws.{copy_at-segment, index-segment, length-concat, total-append}
use mef.Limits.{max_skipped_keys}
use mef.Crypto.Suite
use mef.Crypto.Primitives.{Primitives}
use mef.Keys.Dh.{from_secret}
use mef.Ratchet.State.{RatchetState, SkippedMessageKey}
use mef.Ratchet.Skipped.{Distinct}
use mef.Ratchet.Invariant.{IsRatchet}
use mef.Ratchet.Persistence.Codec.{state_segments, entry_segments, encode_state, decode_entries}
use mef.Ratchet.Persistence.Entries.{IsEntry, decode_entries-segments}

-- A session within the types of the source: arrays of 32 bytes, a key pair made from its secret,
-- and no skipped key twice.
pub record IsStored (p : Primitives) (s : RatchetState) : Type 0 where
  pub session_len : length s.session_id ≡ 32
  pub root_len : length s.root_key ≡ 32
  pub sending_len : length s.sending_chain ≡ 32
  pub receiving_len : length s.receiving_chain ≡ 32
  pub secret_len : length s.dh_pair.secret ≡ 32
  pub remote_len : length s.remote_dh ≡ 32
  pub paired : s.dh_pair ≡ from_secret p s.dh_pair.secret
  pub bounded : IsRatchet s
  pub entries_valid : All IsEntry s.skipped
  pub distinct : Distinct s.skipped

total-entries :
    (es : List SkippedMessageKey) → All IsEntry es → total (entry_segments es) ≡ length es * 68
unfolding entry_segments
total-entries [] v = refl
total-entries (e ∷ es) (v, vs) =
    omega (arith, v.remote_len, v.key_len, length-to_be 4 e.message_number, total-entries es vs)

module _ (p : Primitives) (s : RatchetState) (v : IsStored p s) where
  abbrev pub count : ℕ
  count = length s.skipped

  abbrev front : List Bytes
  front = state_segments s count

  abbrev entries : List Bytes
  entries = entry_segments s.skipped

  -- The plaintext of the snapshot.
  unfoldable pub plain : Bytes
  plain = concat (front ++ entries)

  abbrev before : ℕ → List Bytes
  before k = take k (front ++ entries)

  total-front : total front ≡ 207
  total-front = omega (
    arith,
    v.session_len,
    v.root_len,
    v.sending_len,
    v.receiving_len,
    v.secret_len,
    v.remote_len,
    length-to_be 4 s.previous_sending_chain_len,
    length-to_be 4 s.sending_count,
    length-to_be 4 s.receiving_count,
    length-to_be 2 count,
  )

  pub length-plain : length plain ≡ 207 + count * 68
  unfolding plain
  length-plain =
      length-concat (front ++ entries)
      ∙ omega
          (arith, total-append front entries, total-front, total-entries s.skipped v.entries_valid)

  pub encode_state-eq : encode_state s ≡ ok plain
  unfolding encode_state plain
  encode_state-eq =
      rw
        (
          ltb-false max_skipped_keys count v.bounded.skipped_bounded,
          leb-true count u16_max (omega arith),
          leb-true (count * 68) usize_max (omega arith),
          leb-true (207 + count * 68) usize_max (omega arith),
        )
        refl

  pub read_session : copy_at 0 32 plain ≡ ok s.session_id
  unfolding plain
  read_session = copy_at-segment (before 0) _ _ 0 32 refl (v.session_len)

  pub read_root : copy_at 32 32 plain ≡ ok s.root_key
  unfolding plain
  read_root = copy_at-segment (before 1) _ _ 32 32 (omega (arith, v.session_len)) (v.root_len)

  pub read_sending : copy_at 64 32 plain ≡ ok s.sending_chain
  unfolding plain
  read_sending =
      copy_at-segment (before 2) _ _ 64 32 (omega (arith, v.session_len, v.root_len))
        (v.sending_len)

  pub read_receiving : copy_at 96 32 plain ≡ ok s.receiving_chain
  unfolding plain
  read_receiving =
      copy_at-segment (before 3) _ _ 96 32 (omega (arith, v.session_len, v.root_len, v.sending_len))
        (v.receiving_len)

  pub read_secret : copy_at 128 32 plain ≡ ok s.dh_pair.secret
  unfolding plain
  read_secret =
      copy_at-segment (before 4) _ _ 128 32
        (omega (arith, v.session_len, v.root_len, v.sending_len, v.receiving_len)) (v.secret_len)

  pub read_remote : copy_at 160 32 plain ≡ ok s.remote_dh
  unfolding plain
  read_remote =
      copy_at-segment (before 5) _ _ 160 32
        (omega (arith, v.session_len, v.root_len, v.sending_len, v.receiving_len, v.secret_len))
        (v.remote_len)

  pub read_previous : copy_at 192 4 plain ≡ ok (to_be 4 s.previous_sending_chain_len)
  unfolding plain
  read_previous =
      copy_at-segment (before 6) _ _ 192 4
        (omega (
          arith, v.session_len, v.root_len, v.sending_len, v.receiving_len, v.secret_len,
          v.remote_len,
        ))
        (length-to_be 4 s.previous_sending_chain_len)

  pub read_sending_count : copy_at 196 4 plain ≡ ok (to_be 4 s.sending_count)
  unfolding plain
  read_sending_count =
      copy_at-segment (before 7) _ _ 196 4
        (omega (
          arith,
          v.session_len,
          v.root_len,
          v.sending_len,
          v.receiving_len,
          v.secret_len,
          v.remote_len,
          length-to_be 4 s.previous_sending_chain_len,
        ))
        (length-to_be 4 s.sending_count)

  pub read_receiving_count : copy_at 200 4 plain ≡ ok (to_be 4 s.receiving_count)
  unfolding plain
  read_receiving_count =
      copy_at-segment (before 8) _ _ 200 4
        (omega (
          arith,
          v.session_len,
          v.root_len,
          v.sending_len,
          v.receiving_len,
          v.secret_len,
          v.remote_len,
          length-to_be 4 s.previous_sending_chain_len,
          length-to_be 4 s.sending_count,
        ))
        (length-to_be 4 s.receiving_count)

  pub read_suite : index 204 plain ≡ ok (Suite.id s.suite)
  unfolding plain
  read_suite = index-segment (before 9) _ _ 204 (
      omega (
        arith,
        v.session_len,
        v.root_len,
        v.sending_len,
        v.receiving_len,
        v.secret_len,
        v.remote_len,
        length-to_be 4 s.previous_sending_chain_len,
        length-to_be 4 s.sending_count,
        length-to_be 4 s.receiving_count,
      ))

  pub read_count : copy_at 205 2 plain ≡ ok (to_be 2 count)
  unfolding plain
  read_count =
      copy_at-segment (before 10) _ _ 205 2
        (omega (
          arith,
          v.session_len,
          v.root_len,
          v.sending_len,
          v.receiving_len,
          v.secret_len,
          v.remote_len,
          length-to_be 4 s.previous_sending_chain_len,
          length-to_be 4 s.sending_count,
          length-to_be 4 s.receiving_count,
        ))
        (length-to_be 2 count)

  pub read_entries : decode_entries plain 207 0 [] count ≡ ok s.skipped
  unfolding plain
  read_entries =
      decode_entries-segments plain 0 front [] s.skipped refl (omega (arith, total-front))
        (omega (arith, v.bounded.skipped_bounded)) v.entries_valid v.distinct
