-- ===== src/Tests/Pair.antt =====
-- Two sessions that share a handshake, before and behind a message.
use mef.Prelude.{[], ◌∷◌, ◌++◌, Bytes, replicate, codes}
use mef.Crypto.Suite.{x_cha_cha20_poly1305}
use mef.Frame.Header.{message}
use mef.Frame.Format.{InnerFrame}
use mef.Handshake.Authenticated.{AuthenticatedHandshake, initiator, responder}
use mef.Ratchet.State.{RatchetState}

abbrev pub session : Bytes
session = replicate 32 4

abbrev pub alice_public : Bytes
alice_public = replicate 32 1

abbrev pub bob_public : Bytes
bob_public = replicate 32 2

abbrev pub alice_handshake : AuthenticatedHandshake
alice_handshake = record {
  session_id = session;
  root_secret = replicate 32 3;
  role = initiator;
  local_ratchet = record { secret = replicate 32 1; public = alice_public };
  remote_ratchet = bob_public;
}

abbrev pub bob_handshake : AuthenticatedHandshake
bob_handshake = record alice_handshake {
  role = responder;
  local_ratchet = record { secret = replicate 32 2; public = bob_public };
  remote_ratchet = alice_public;
}

abbrev pub alice : RatchetState
alice = record {
  session_id = session;
  root_key = replicate 32 3;
  sending_chain = replicate 32 4;
  receiving_chain = replicate 32 4;
  dh_pair = record { secret = replicate 32 1; public = alice_public };
  remote_dh = bob_public;
  previous_sending_chain_len = 0;
  sending_count = 0;
  receiving_count = 0;
  generation = 0;
  suite = x_cha_cha20_poly1305;
  skipped = [];
}

abbrev pub bob : RatchetState
bob = record alice {
  dh_pair = record { secret = replicate 32 2; public = bob_public };
  remote_dh = alice_public;
}

abbrev pub text : Bytes
text = codes "hello"

-- The third message of Alice, sealed under the key that two steps of the chain lead to.
abbrev pub third : InnerFrame
third = record {
  header = record {
    kind = message;
    session_id = session;
    ratchet_public = alice_public;
    previous_chain_len = 0;
    message_number = 2;
  };
  ciphertext = record {
    suite = x_cha_cha20_poly1305;
    nonce = replicate 24 1;
    body = text ++ (1 ∷ 2 ∷ 2 ∷ replicate 13 4);
  };
}

-- Bob behind the third message.
abbrev pub bob_later : RatchetState
bob_later = record bob {
  receiving_chain = 2 ∷ 2 ∷ 2 ∷ replicate 29 4;
  receiving_count = 3;
  generation = 1;
  skipped =
      record { remote_dh = alice_public; message_number = 0; key = 1 ∷ replicate 31 4 }
      ∷ record { remote_dh = alice_public; message_number = 1; key = 1 ∷ 2 ∷ replicate 30 4 }
      ∷ [];
}
