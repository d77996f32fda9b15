-- ===== src/Tests/Late.antt =====
-- A message that comes behind a later one.
use mef.Prelude.{◌≡◌, refl, arith, List, ◌∷◌, ◌++◌, replicate, to_be, bytes_eq}
use mef.Error.{ok}
use mef.Tests.Toy.{toy, unseal}
use mef.Tests.Pair.{alice_public, text, third, bob_later}
use mef.Wire.{concat}
use mef.Crypto.Suite.{nonce_len, id}
use mef.Crypto.Aead.{open_ciphertext}
use mef.Frame.Header.{kind_id}
use mef.Frame.Format.{InnerFrame, encode_aad, frame_aad, open_frame}
use mef.Ratchet.State.{SkippedMessageKey, next_generation}
use mef.Ratchet.Decrypt.{decrypt}
use mef.Ratchet.Receive.{IsOrdered}
use mef.Ratchet.Late.{first, later, decrypt-late}

-- Alice's second message reaches Bob behind the third.
abbrev second : InnerFrame
second = record third {
  header = record third.header { message_number = 1 };
  ciphertext = record third.ciphertext { body = text ++ (1 ∷ 2 ∷ replicate 14 4) };
}

abbrev second_key : SkippedMessageKey
second_key = record { remote_dh = alice_public; message_number = 1; key = 1 ∷ 2 ∷ replicate 30 4 }

later-IsOrdered : IsOrdered bob_later
later-IsOrdered = record {
  under = ((λ _. omega arith), ((λ _. omega arith), tt));
  distinct = (((λ same numbered. omega (arith, numbered)), tt), (tt, tt));
}

second-open : open_frame toy second second_key.key ≡ ok text
unfolding open_frame frame_aad encode_aad open_ciphertext concat to_be id nonce_len kind_id unseal
    bytes_eq
second-open = refl

decrypt-late_example :
    (rest : List SkippedMessageKey) × (decrypt toy second bob_later 0
      ≡ (ok text, next_generation (record bob_later { skipped = rest }), 0))
decrypt-late_example =
    decrypt-late toy bob_later later-IsOrdered second second_key text 0 (later first) refl refl refl
      refl refl second-open
