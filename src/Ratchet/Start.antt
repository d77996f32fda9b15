-- ===== src/Ratchet/Start.antt =====
-- ratchet/state.rs: the two sessions that start from the two ends of one handshake.
use mef.Prelude.{◌≡◌, refl, sym, ◌∙◌, [], Bytes}
use mef.Error.{ok, >>=-ok_inv}
use mef.Crypto.Suite.{AeadSuite}
use mef.Crypto.Primitives.{Primitives}
use mef.Crypto.Kdf.{derive_secret}
use mef.Handshake.Authenticated.{AuthenticatedHandshake, initiator, responder}
use mef.Ratchet.Schedule.{derive_keys}
use mef.Ratchet.State.{RatchetState}
use mef.Ratchet.Init.{
  init_a_to_b_label, init_b_to_a_label, chains, from_authenticated_handshake_with_suite,
}
use mef.Ratchet.Exchange.{Ahead}

ok_injective : {x y : Bytes} → ok x ≡ ok y → x ≡ y
ok_injective h = cc

-- The two results of one handshake: the same identifier and root, opposite roles, and each end has
-- the other's ratchet key.
pub record Agrees (a b : AuthenticatedHandshake) : Type 0 where
  pub session : b.session_id ≡ a.session_id
  pub root : b.root_secret ≡ a.root_secret
  pub initiates : a.role ≡ initiator
  pub responds : b.role ≡ responder
  pub a_key : b.remote_ratchet ≡ a.local_ratchet.public
  pub b_key : a.remote_ratchet ≡ b.local_ratchet.public

-- The session with the two chains.
abbrev pub started : AuthenticatedHandshake → AeadSuite → Bytes → Bytes → RatchetState
started h suite a_to_b b_to_a = record {
  session_id = h.session_id;
  root_key = h.root_secret;
  sending_chain = (chains h.role a_to_b b_to_a).0;
  receiving_chain = (chains h.role a_to_b b_to_a).1;
  dh_pair = h.local_ratchet;
  remote_dh = h.remote_ratchet;
  previous_sending_chain_len = 0;
  sending_count = 0;
  receiving_count = 0;
  generation = 0;
  suite = suite;
  skipped = [];
}

pub init_lem :
    (p : Primitives) (h : AuthenticatedHandshake) (suite : AeadSuite) (s : RatchetState)
    → from_authenticated_handshake_with_suite p h suite ≡ ok s
    → (x : Bytes) × (y : Bytes) × (derive_secret p h.root_secret init_a_to_b_label h.session_id
        ≡ ok x)
      × (derive_secret p h.root_secret init_b_to_a_label h.session_id ≡ ok y)
      × (started h suite x y ≡ s)
unfolding from_authenticated_handshake_with_suite
init_lem p h suite s made =
    let (x, rest, to_b) =
      >>=-ok_inv (derive_secret p h.root_secret init_a_to_b_label h.session_id) _ made in
    let (y, built, to_a) =
      >>=-ok_inv (derive_secret p h.root_secret init_b_to_a_label h.session_id) _ rest in
    (x, y, to_b, to_a, cc)

started-Ahead :
    (p : Primitives) (ha hb : AuthenticatedHandshake) (suite : AeadSuite) (x y : Bytes)
    → Agrees ha hb
    → Ahead p 0 (started ha suite x y) (started hb suite x y)
      × Ahead p 0 (started hb suite x y) (started ha suite x y)
unfolding chains derive_keys
started-Ahead p ha hb suite x y w = (
  record {
    session = w.session;
    suite_same = refl;
    remote = w.a_key;
    number = refl;
    keys = [];
    reaches = rw (w.initiates, w.responds) refl;
  },
  record {
    session = sym w.session;
    suite_same = refl;
    remote = w.b_key;
    number = refl;
    keys = [];
    reaches = rw (w.initiates, w.responds) refl;
  },
)

-- Sessions made with one suite from the two results of one handshake are in step in both
-- directions.
pub init-Ahead :
    (p : Primitives) (ha hb : AuthenticatedHandshake) (suite : AeadSuite) (a b : RatchetState)
    → Agrees ha hb
    → from_authenticated_handshake_with_suite p ha suite ≡ ok a
    → from_authenticated_handshake_with_suite p hb suite ≡ ok b
    → Ahead p 0 a b × Ahead p 0 b a
init-Ahead p ha hb suite a b w made_a made_b =
    let (x, y, to_b, to_a, built) = init_lem p ha suite a made_a in
    let (x', y', to_b', to_a', built') = init_lem p hb suite b made_b in
    let same_x : x' ≡ x = ok_injective (sym to_b' ∙ rw (w.root, w.session) to_b) in
    let same_y : y' ≡ y = ok_injective (sym to_a' ∙ rw (w.root, w.session) to_a) in
    let b_is : started hb suite x y ≡ b = rw (same_x, same_y) at built' in
    rw (← built, ← b_is) (started-Ahead p ha hb suite x y w)
