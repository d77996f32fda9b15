-- ===== src/Tests/Sessions.antt =====
-- Two sessions that share a handshake.
use mef.Prelude.{
  ℕ, ◌≡◌, refl, arith, List, [], ◌∷◌, Bytes, replicate, to_be, bytes_eq, bytes_eq-ne, u32_max,
}
use mef.Error.{ok, err, Ensures, message_key_consumed}
use mef.Tests.Toy.{toy, toy-IsAead, toy-IsKdf, unseal}
use mef.Tests.Pair.{alice_public, bob_public, alice_handshake, alice, bob, text, third, bob_later}
use mef.Wire.{concat}
use mef.Crypto.Suite.{nonce_len, id, same, x_cha_cha20_poly1305}
use mef.Crypto.Primitives.{Granted}
use mef.Crypto.Aead.{open_ciphertext}
use mef.Crypto.Kdf.{derive_secret, derive_aead_key, domain_label}
use mef.Frame.Header.{message, kind_id}
use mef.Frame.Format.{InnerFrame, encode_aad, frame_aad, open_frame}
use mef.Frame.Seal.{seal_frame}
use mef.Frame.Seal.Opens.{SealsFrame, seal_frame-SealsFrame}
use mef.Ratchet.Schedule.Laws.{Grants, derive_for_message-Ensures}
use mef.Ratchet.Schedule.{chain_step, derive_keys, derive_range, derive_for_message}
use mef.Ratchet.State.{SkippedMessageKey, encrypt}
use mef.Ratchet.Decrypt.{decrypt, decrypt_same_ratchet, decrypt_ahead}
use mef.Ratchet.Init.{chains, from_authenticated_handshake_with_suite}
use mef.Ratchet.Invariant.{IsRatchet, Sane, decrypt-Sane}
use mef.Ratchet.History.{encrypts, decrypts, rotates, run, run-init-IsRatchet}
use mef.Ratchet.Atomicity.{Commits, Decrypts, SendingLost, encrypt-Commits, decrypt-Commits}
use mef.Ratchet.Receive.{IsOrdered}
use mef.Ratchet.Order.{decrypt-once}
use mef.Ratchet.Stale.{decrypt-stale}
use mef.Ratchet.Exchange.{Ahead, Exchanges, encrypt-decrypt}

made : from_authenticated_handshake_with_suite toy alice_handshake x_cha_cha20_poly1305 ≡ ok alice
unfolding from_authenticated_handshake_with_suite chains derive_secret domain_label
made = refl

third-decrypt : decrypt toy third bob 0 ≡ (ok text, bob_later, 0)
unfolding decrypt decrypt_same_ratchet decrypt_ahead derive_for_message derive_range derive_keys
    chain_step derive_secret derive_aead_key domain_label open_frame frame_aad encode_aad
    open_ciphertext concat to_be bytes_eq same id nonce_len kind_id unseal
third-decrypt = refl

bob-IsRatchet : IsRatchet bob
bob-IsRatchet = record {
  skipped_bounded = omega arith;
  previous_fits = omega arith;
  sending_fits = omega arith;
  receiving_fits = omega arith;
  generation_fits = omega arith;
}

bob-IsOrdered : IsOrdered bob
bob-IsOrdered = record { under = tt; distinct = tt }

decrypt-Sane_example : Sane (decrypt toy third bob 0)
decrypt-Sane_example = decrypt-Sane toy bob 0 bob-IsRatchet third (omega arith)

run-init-IsRatchet_example :
    IsRatchet (run toy (encrypts message text ∷ rotates ∷ decrypts third ∷ []) alice 0).0
run-init-IsRatchet_example =
    run-init-IsRatchet toy alice_handshake x_cha_cha20_poly1305 alice
      (encrypts message text ∷ rotates ∷ decrypts third ∷ []) 0 made (tt, (tt, (omega arith, tt)))

encrypt-Commits_example :
    Commits
      (alice.sending_count ≡ u32_max)
      (SendingLost alice)
      alice
      (encrypt toy message text alice 0)
encrypt-Commits_example = encrypt-Commits toy alice 0 message text (omega arith)

decrypt-Commits_example : Decrypts toy bob 0 third (omega arith) (decrypt toy third bob 0)
decrypt-Commits_example = decrypt-Commits toy bob 0 third (omega arith)

decrypt-once_example :
    IsOrdered bob_later
    × ((k : ℕ) → decrypt toy third bob_later k ≡ (err message_key_consumed, bob_later, k))
decrypt-once_example =
    decrypt-once toy bob 0 bob-IsOrdered third (λ other. absurd (other refl)) third-decrypt

-- A frame of another ratchet key, for a session that holds two skipped keys.
abbrev foreign : InnerFrame
foreign = record third { header = record third.header { ratchet_public = bob_public } }

-- Others in place of the two.
abbrev others : List SkippedMessageKey
others =
    record { remote_dh = bob_public; message_number = 2; key = replicate 32 0 }
    ∷ record { remote_dh = bob_public; message_number = 3; key = replicate 32 0 }
    ∷ []

decrypt-stale_example :
    (decrypt toy foreign (record bob_later { skipped = others }) 0).0
    ≡ (decrypt toy foreign bob_later 0).0
unfolding bytes_eq
decrypt-stale_example =
    decrypt-stale toy bob_later 0 others refl foreign (bytes_eq-ne bob_public alice_public refl)

alice-Ahead : Ahead toy 0 alice bob
unfolding derive_keys
alice-Ahead = record {
  session = refl;
  suite_same = refl;
  remote = refl;
  number = refl;
  keys = [];
  reaches = refl;
}

granted : Granted toy 0 (nonce_len alice.suite)
unfolding nonce_len
granted = (replicate 24 1, refl, refl)

encrypt-decrypt_example : Exchanges toy toy-IsAead toy-IsKdf alice bob 0 message text 0
encrypt-decrypt_example =
    encrypt-decrypt toy toy-IsAead toy-IsKdf alice bob 0 message text 0 alice-Ahead
      (record {
        session_len = refl;
        ratchet_len = refl;
        previous_fits = omega arith;
        number_fits = omega arith;
      })
      (omega arith) (omega arith) (omega arith) granted

abbrev zeros : Bytes
zeros = replicate 32 0

seal_frame-SealsFrame_example :
    (f : InnerFrame) × (seal_frame toy zeros x_cha_cha20_poly1305 third.header text tt 0
      ≡ (ok f, tt, 1))
    × SealsFrame toy toy-IsAead zeros refl x_cha_cha20_poly1305 third.header text f
seal_frame-SealsFrame_example =
    seal_frame-SealsFrame toy toy-IsAead zeros refl x_cha_cha20_poly1305 third.header text 0 granted
      (record {
        session_len = refl;
        ratchet_len = refl;
        previous_fits = omega arith;
        number_fits = omega arith;
      })
      (omega arith)

derive_for_message-Ensures_example :
    Ensures (λ (next, key, keys). Grants 3 5 2 keys) (derive_for_message toy zeros 3 5 2)
derive_for_message-Ensures_example = derive_for_message-Ensures toy zeros 3 5 2
