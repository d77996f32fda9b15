-- ===== src/Ratchet/Persistence/RoundTrip.antt =====
-- ratchet/persistence.rs: `encode_state` followed by `decode_state`.
use mef.Prelude.{
  ℕ, ◌+◌, ◌*◌, ◌≡◌, refl, arith, from_be-to_be, leb-true, ltb-false, ==_refl, usize_max,
}
use mef.Error.{ok}
use mef.Limits.{max_skipped_keys}
use mef.Crypto.Suite
use mef.Crypto.Primitives.{Primitives}
use mef.Ratchet.State.{RatchetState}
use mef.Ratchet.Persistence.Codec.{decode_state, suite_and_offset, fixed_len_of, version}
use mef.Ratchet.Persistence.Layout.{
  IsStored, plain, count, length-plain, read_session, read_root, read_sending, read_receiving,
  read_secret, read_remote, read_previous, read_sending_count, read_receiving_count, read_suite,
  read_count, read_entries,
}

module _ (p : Primitives) (s : RatchetState) (v : IsStored p s) where
  -- The plaintext of a snapshot is parsed back to the session, with the generation that the
  -- snapshot's header gave.
  pub decode_state-plain :
      (generation : ℕ)
      → decode_state p (plain p s v) generation version ≡ ok (record s { generation = generation })
  unfolding decode_state suite_and_offset fixed_len_of
  decode_state-plain generation =
      rw
        (
          length-plain p s v,
          ltb-false (207 + (count p s v) * 68) 207 (omega arith),
          read_suite p s v,
          Suite.from_id-id,
          read_count p s v,
          from_be-to_be 2 (count p s v) (omega arith),
          ltb-false max_skipped_keys (count p s v) v.bounded.skipped_bounded,
          leb-true ((count p s v) * 68) usize_max (omega arith),
          leb-true (207 + (count p s v) * 68) usize_max (omega arith),
          ==_refl (207 + (count p s v) * 68),
          read_session p s v,
          read_root p s v,
          read_sending p s v,
          read_receiving p s v,
          read_secret p s v,
          read_remote p s v,
          read_previous p s v,
          read_sending_count p s v,
          read_receiving_count p s v,
          ==_refl (count p s v),
          read_entries p s v,
          from_be-to_be 4 s.previous_sending_chain_len (omega arith),
          from_be-to_be 4 s.sending_count (omega arith),
          from_be-to_be 4 s.receiving_count (omega arith),
          ← v.paired,
        )
        refl
