-- ===== src/Tests/Rotations.antt =====
-- Alice rotates twice before she writes to Bob again.
use mef.Prelude.{◌≡◌, refl, arith, ◌∷◌, ◌++◌, replicate, bytes_eq, bytes_eq-ne, to_be}
use mef.Error.{ok, err, ratchet_state_mismatch}
use mef.Wire.{concat}
use mef.Crypto.Suite.{nonce_len, id, x_cha_cha20_poly1305}
use mef.Crypto.Aead.{validate_inputs, seal_with_nonce, from_parts}
use mef.Crypto.Seal.{fill_secure, random_bytes, seal}
use mef.Crypto.Kdf.{derive_secret, derive_aead_key, domain_label}
use mef.Keys.Dh.{DhKeyPair, generate, from_secret, public_key, diffie_hellman}
use mef.Frame.Header.{message, kind_id}
use mef.Frame.Format.{InnerFrame, encode_aad, from_ciphertext}
use mef.Frame.Seal.{seal_frame}
use mef.Ratchet.Schedule.{root_step, chain_step}
use mef.Ratchet.State.{RatchetState, encrypt, rotate_sending_ratchet}
use mef.Ratchet.Decrypt.{decrypt}
use mef.Ratchet.Rotation.{rotate-twice}
use mef.Ratchet.Init.{chains, from_authenticated_handshake_with_suite}
use mef.Ratchet.Turn.{Turns}
use mef.Ratchet.Linked.{Linked, init-Linked, rotate-Turns}
use mef.Tests.Toy.{toy, toy-IsAead, toy-IsKdf, toy-IsDh}
use mef.Tests.Pair.{
  alice, alice_public, alice_handshake, bob, bob_public, bob_handshake, bob_later, session, text,
}

made_alice :
    from_authenticated_handshake_with_suite toy alice_handshake x_cha_cha20_poly1305 ≡ ok alice
unfolding from_authenticated_handshake_with_suite chains derive_secret domain_label
made_alice = refl

made_bob : from_authenticated_handshake_with_suite toy bob_handshake x_cha_cha20_poly1305 ≡ ok bob
unfolding from_authenticated_handshake_with_suite chains derive_secret domain_label
made_bob = refl

abbrev once : RatchetState
once = record alice {
  root_key = replicate 32 224;
  sending_chain = replicate 32 224;
  dh_pair = record { secret = replicate 32 5; public = replicate 32 5 };
  generation = 1;
}

abbrev twice : RatchetState
twice = record once {
  root_key = replicate 32 32;
  sending_chain = replicate 32 32;
  dh_pair = record { secret = replicate 32 7; public = replicate 32 7 };
  generation = 2;
}

abbrev later : RatchetState
later = record twice { sending_chain = 2 ∷ replicate 31 32; sending_count = 1; generation = 3 }

abbrev next : InnerFrame
next = record {
  header = record {
    kind = message;
    session_id = session;
    ratchet_public = replicate 32 7;
    previous_chain_len = 0;
    message_number = 0;
  };
  ciphertext = record {
    suite = x_cha_cha20_poly1305;
    nonce = replicate 24 8;
    body = text ++ 1 ∷ replicate 15 32;
  };
}

first_rotation : rotate_sending_ratchet toy alice 4 ≡ (ok tt, once, 5)
unfolding rotate_sending_ratchet generate from_secret public_key random_bytes fill_secure
    diffie_hellman root_step derive_secret domain_label bytes_eq
first_rotation = refl

second_rotation : rotate_sending_ratchet toy once 6 ≡ (ok tt, twice, 7)
unfolding rotate_sending_ratchet generate from_secret public_key random_bytes fill_secure
    diffie_hellman root_step derive_secret domain_label bytes_eq
second_rotation = refl

sent : encrypt toy message text twice 7 ≡ (ok next, later, 8)
unfolding encrypt chain_step derive_secret derive_aead_key domain_label seal_frame encode_aad concat
    to_be kind_id id nonce_len seal fill_secure validate_inputs seal_with_nonce from_parts
    from_ciphertext
sent = refl

rotate-twice_example : decrypt toy next bob_later 0 ≡ (err ratchet_state_mismatch, bob_later, 0)
unfolding bytes_eq
rotate-twice_example =
    rotate-twice toy alice once twice later bob_later 4 5 6 7 7 8 0 message text next first_rotation
      second_rotation sent (omega arith) (bytes_eq-ne (replicate 32 7) alice_public refl)

-- Bob's next key, from his twelfth request.
abbrev bob_next : DhKeyPair
bob_next = record { secret = replicate 32 12; public = replicate 32 12 }

bob-draws : generate toy tt 11 ≡ (ok bob_next, tt, 12)
unfolding generate from_secret public_key random_bytes fill_secure
bob-draws = refl

bob-agrees : diffie_hellman toy bob_next.secret once.dh_pair.public ≡ ok (replicate 32 32)
unfolding diffie_hellman bytes_eq
bob-agrees = refl

pair-Linked : Linked toy 0 0 alice bob
pair-Linked =
    init-Linked toy alice_handshake bob_handshake x_cha_cha20_poly1305 alice bob
      (record {
        session = refl;
        root = refl;
        initiates = refl;
        responds = refl;
        a_key = refl;
        b_key = refl;
      })
      refl made_alice made_bob

rotate-Turns_example : Turns toy toy-IsAead toy-IsKdf once bob 0 0 message text 7 11
unfolding nonce_len bytes_eq
rotate-Turns_example =
    rotate-Turns toy toy-IsDh 0 0 alice bob pair-Linked toy-IsAead toy-IsKdf message text once
      bob_next (replicate 32 32) 4 5 7 11 first_rotation
      (bytes_eq-ne (replicate 32 5) alice_public refl)
      (record {
        session_len = refl;
        ratchet_len = refl;
        previous_fits = omega arith;
        number_fits = omega arith;
      })
      (omega arith) (omega arith) (replicate 24 8, refl, refl) bob-draws bob-agrees
      (bytes_eq-ne (replicate 32 12) bob_public refl)
