-- ===== src/Ratchet/Init.antt =====
-- ratchet/state.rs: a session starts from the result of a handshake.
use mef.Prelude.{[], Bytes, codes}
use mef.Error.{Result, ok, ◌>>=◌}
use mef.Crypto.Suite.{AeadSuite, x_cha_cha20_poly1305}
use mef.Crypto.Primitives.{Primitives}
use mef.Crypto.Kdf.{derive_secret}
use mef.Handshake.Authenticated.{RatchetRole, initiator, responder, AuthenticatedHandshake}
use mef.Ratchet.State.{RatchetState}

abbrev pub init_a_to_b_label : Bytes
init_a_to_b_label = codes "ratchet-init-a-to-b-v1"

abbrev pub init_b_to_a_label : Bytes
init_b_to_a_label = codes "ratchet-init-b-to-a-v1"

abbrev pub default_suite : AeadSuite
default_suite = x_cha_cha20_poly1305

-- `match role`: the sending chain and the receiving chain.
unfoldable pub chains : RatchetRole → Bytes → Bytes → Bytes × Bytes
chains initiator a_to_b b_to_a = (a_to_b, b_to_a)
chains responder a_to_b b_to_a = (b_to_a, a_to_b)

unfoldable pub from_authenticated_handshake_with_suite :
    Primitives → AuthenticatedHandshake → AeadSuite → Result RatchetState
from_authenticated_handshake_with_suite p h suite = do
  a_to_b ← derive_secret p h.root_secret init_a_to_b_label h.session_id
  b_to_a ← derive_secret p h.root_secret init_b_to_a_label h.session_id
  let directed = chains h.role a_to_b b_to_a
  ok (record {
    session_id = h.session_id;
    root_key = h.root_secret;
    sending_chain = directed.0;
    receiving_chain = directed.1;
    dh_pair = h.local_ratchet;
    remote_dh = h.remote_ratchet;
    previous_sending_chain_len = 0;
    sending_count = 0;
    receiving_count = 0;
    generation = 0;
    suite = suite;
    skipped = [];
  })

unfoldable pub from_authenticated_handshake :
    Primitives → AuthenticatedHandshake → Result RatchetState
unfolding from_authenticated_handshake_with_suite
from_authenticated_handshake p h = from_authenticated_handshake_with_suite p h default_suite
