-- ===== src/Tests/Snapshots.antt =====
-- A session that holds two skipped keys, stored and restored.
use mef.Prelude.{◌≡◌, refl, arith, Bytes, IsByte, All, length, replicate, codes, ◌++◌, to_be}
use mef.Wire.{concat}
use mef.Crypto.Suite.{id}
use mef.Error.{ok, err, Ensures, state_rollback_detected}
use mef.Crypto.Primitives.{Granted}
use mef.Keys.Dh.{from_secret, public_key}
use mef.Ratchet.Persistence.Codec.{version, decode_state, state_segments, entry_segments}
use mef.Ratchet.Persistence.Snapshot.{restore_state, snapshot_segments}
use mef.Ratchet.Persistence.Guarded.{IsCurrent, restore_state-IsCurrent}
use mef.Ratchet.Persistence.Seal.{seal_state}
use mef.Ratchet.Persistence.Layout.{IsStored, plain}
use mef.Ratchet.Persistence.RoundTrip.{decode_state-plain}
use mef.Ratchet.Persistence.Rollback.{
  with_generation, restore_state-seal_state, restore_state-refuses, restore_state-forged,
}
use mef.Tests.Toy.{toy, toy-IsAead, toy-HasBytes, All-are_bytes, pad}
use mef.Tests.Pair.{bob_later}

abbrev storage_key : Bytes
storage_key = replicate 32 77

abbrev slot : Bytes
slot = codes "account/device/session"

bob-IsStored : IsStored toy bob_later
unfolding from_secret public_key
bob-IsStored = record {
  session_len = refl;
  root_len = refl;
  sending_len = refl;
  receiving_len = refl;
  secret_len = refl;
  remote_len = refl;
  paired = refl;
  bounded = record {
    skipped_bounded = omega arith;
    previous_fits = omega arith;
    sending_fits = omega arith;
    receiving_fits = omega arith;
    generation_fits = omega arith;
  };
  entries_valid = (
    record { remote_len = refl; number_fits = omega arith; key_len = refl },
    (record { remote_len = refl; number_fits = omega arith; key_len = refl }, tt),
  );
  distinct = (((λ same numbered. omega (arith, numbered)), tt), (tt, tt));
}

granted : Granted toy 0 24
granted = (replicate 24 1, refl, refl)

decode_state-plain_example :
    decode_state toy (plain toy bob_later bob-IsStored) 9 version
    ≡ ok (record bob_later { generation = 9 })
decode_state-plain_example = decode_state-plain toy bob_later bob-IsStored 9

restore_state-seal_state_example :
    (bytes : Bytes) × (seal_state toy bob_later storage_key slot tt 0 ≡ (ok bytes, tt, 1))
    × (restore_state toy storage_key slot 1 bytes ≡ ok bob_later)
restore_state-seal_state_example =
    restore_state-seal_state toy toy-IsAead bob_later bob-IsStored storage_key slot 0 1 refl
      (omega arith) granted (omega arith)

restore_state-refuses_example :
    (bytes : Bytes) × (seal_state toy bob_later storage_key slot tt 0 ≡ (ok bytes, tt, 1))
    × (restore_state toy storage_key slot 2 bytes ≡ err state_rollback_detected)
restore_state-refuses_example =
    restore_state-refuses toy toy-IsAead bob_later bob-IsStored storage_key slot 0 2 refl
      (omega arith) granted (omega arith)

restore_state-forged_example :
    (bytes : Bytes) × (seal_state toy bob_later storage_key slot tt 0 ≡ (ok bytes, tt, 1))
    × (restore_state toy storage_key slot 2 (with_generation 5 bytes)
        ≡ ok (record bob_later { generation = 5 }))
restore_state-forged_example =
    restore_state-forged toy toy-IsAead bob_later bob-IsStored storage_key slot 0 2 refl
      (omega arith) granted 5 (omega arith) (omega arith)

-- What sealing the session gives, written out: the plaintext and the tag of the toy cipher.
abbrev sealed : Bytes
sealed =
    concat (state_segments bob_later 2 ++ entry_segments bob_later.skipped) ++ pad 16 storage_key

abbrev stored : Bytes
stored = concat (snapshot_segments 1 24 (length sealed) (replicate 24 1) sealed)

stored-All : All IsByte stored
unfolding concat to_be entry_segments id
stored-All = All-are_bytes stored refl

restore_state-IsCurrent_example :
    Ensures (IsCurrent toy 1) (restore_state toy storage_key slot 1 stored)
restore_state-IsCurrent_example =
    restore_state-IsCurrent toy storage_key slot 1 stored toy-HasBytes stored-All
