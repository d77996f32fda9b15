-- ===== src/Tests/Prekeys.antt =====
-- A responder with a one-time prekey, and an initiator who has its bundle.
mod Bundles
mod First
mod Hybrid
use mef.Prelude.{
  ℕ, ◌≡◌, refl, arith, List, [], ◌∷◌, replicate, codes, take, ◌++◌, some, All, bytes_eq, to_be,
}
use mef.Error.{ok, err, Ensures, ratchet_state_mismatch}
use mef.Tests.Toy.{toy, toy-IsDh, toy-IsSigning}
use mef.Wire.{concat}
use mef.Vec.{any, position, elem_at, remove}
use mef.Crypto.Seal.{random_bytes, fill_secure}
use mef.Crypto.Kdf.{blake3_id, any_oversized, feed_parts, derive_secret, domain_label}
use mef.Keys.Dh.{DhKeyPair, generate, from_secret, public_key, diffie_hellman}
use mef.Keys.Identity.{from_seed, sign, verify}
use mef.Keys.Prekey.{issue, sign_prekey, transcript, verify_prekey}
use mef.Handshake.Authenticated.{AuthenticatedHandshake, initiator, responder}
use mef.Handshake.Message.{
  InitiatorHandshake, identity_public, identity_binding_transcript, verify_identity, encode_message,
  one_time_segments,
}
use mef.Handshake.Bundle.{verify_bundle}
use mef.Handshake.Material.{
  LocalIdentity, ResponderPrekeyMaterial, bundle, local_public, generate_material,
}
use mef.Handshake.Agreement.{
  initiate, accept, offered_dh, derive_handshake_values, identity_public_wire, signed_prekey_for,
  one_time_index, accepted_dh, consume,
}
use mef.Handshake.Valid.{IsMaterial, IsLocal, view}
use mef.Handshake.Service.{
  Call, add, rotate, retire, respond, perform, promise, history, history-Refines,
}
use mef.Handshake.Serves.{Keeps}
use mef.Handshake.Matches.{Meets, accept-initiate}
use mef.Handshake.Fresh.{history-IsMaterial}
use mef.Handshake.Atomicity.{Atomic, accept-Atomic}
use mef.Handshake.Once.{accept-once}

-- A key pair of a secret of one repeated byte, which is its public half too.
abbrev pub pair_of : ℕ → DhKeyPair
pair_of b = record { secret = replicate 32 b; public = replicate 32 b }

abbrev pub local_of : ℕ → LocalIdentity
unfolding from_seed
local_of b = record { signing = from_seed toy (replicate 32 b); dh = pair_of b }

abbrev pub bob_keys : ResponderPrekeyMaterial
unfolding from_seed issue
bob_keys = record {
  identity = local_of 5;
  signed_prekey = pair_of 6;
  signed_record = issue toy (from_seed toy (replicate 32 5)) 7 (replicate 32 6) 2000;
  retired_signed_prekeys = [];
  one_time_prekeys =
      record { public = record { id = 19; public = replicate 32 8 }; key = pair_of 8 } ∷ [];
}

pub bob_keys-IsMaterial : IsMaterial toy bob_keys
unfolding from_seed issue any
bob_keys-IsMaterial = record {
  local = record { signing_derived = refl; dh_pair = refl };
  current = record { pair = refl; same_key = refl; issued = refl };
  retired = tt;
  retired_distinct = tt;
  current_distinct = refl;
  offers = ((refl, refl), tt);
  offers_distinct = (refl, tt);
}

pub alice-IsLocal : IsLocal toy (local_of 9)
unfolding from_seed
alice-IsLocal = record { signing_derived = refl; dh_pair = refl }

-- What Alice sends and keeps; the toy hash keeps the first bytes of what it is fed.
abbrev pub first_message : InitiatorHandshake
unfolding local_public from_seed
first_message = record {
  initiator_identity = local_public toy (local_of 9);
  initiator_ephemeral = replicate 32 1;
  initiator_ratchet = replicate 32 2;
  signed_prekey_id = 7;
  one_time_prekey_id = some 19;
}

abbrev pub alice_result : AuthenticatedHandshake
alice_result = record {
  session_id =
      take 32 (codes "MEF-26" ++ 0 ∷ codes "blake3-id" ++ 0 ∷ codes "handshake-session-v1");
  root_secret = replicate 32 224;
  role = initiator;
  local_ratchet = pair_of 2;
  remote_ratchet = replicate 32 6;
}

abbrev pub bob_result : AuthenticatedHandshake
bob_result = record alice_result {
  role = responder;
  local_ratchet = pair_of 6;
  remote_ratchet = replicate 32 2;
}

pub alice-initiates :
    initiate toy (local_of 9) (bundle toy bob_keys) 1000 tt 0
    ≡ (ok (first_message, alice_result), tt, 2)
unfolding initiate verify_bundle verify_identity verify bundle bob_keys bytes_eq sign
    identity_binding_transcript concat verify_prekey generate random_bytes fill_secure from_secret
    public_key diffie_hellman offered_dh derive_handshake_values blake3_id any_oversized feed_parts
    derive_secret domain_label encode_message one_time_segments identity_public_wire identity_public
    local_public from_seed issue sign_prekey transcript local_of first_message to_be
alice-initiates = refl

abbrev bob_left : ResponderPrekeyMaterial
unfolding from_seed issue
bob_left = record bob_keys { one_time_prekeys = [] }

bob-accepts : accept toy first_message bob_keys 0 ≡ (ok bob_result, bob_left, 0)
unfolding accept verify_identity verify bob_keys bob_left bytes_eq sign identity_binding_transcript
    concat signed_prekey_for one_time_index accepted_dh consume position elem_at remove from_secret
    public_key diffie_hellman derive_handshake_values blake3_id any_oversized feed_parts
    derive_secret domain_label encode_message one_time_segments identity_public_wire identity_public
    local_public from_seed issue sign_prekey transcript local_of first_message to_be
bob-accepts = refl

-- Bob adds a prekey, rotates the signed one, and retires one that he does not have.
abbrev pub busy : List Call
busy = add 20 ∷ rotate 8 3000 ∷ retire 5 ∷ []

pub other_retired : All (Keeps (bundle toy bob_keys)) busy
unfolding bundle bob_keys issue
other_retired = (tt, (tt, (omega arith, tt)))

accept-initiate_example :
    Meets toy
      (bundle toy bob_keys)
      first_message
      alice_result
      (history (perform toy) busy bob_keys 5).1
      9
accept-initiate_example =
    accept-initiate toy bob_keys (local_of 9) busy first_message alice_result 1000 0 2 5 9 toy-IsDh
      toy-IsSigning bob_keys-IsMaterial alice-IsLocal other_retired alice-initiates

-- Bob receives the first message between the other calls.
abbrev day : List Call
day = add 20 ∷ respond first_message ∷ rotate 8 3000 ∷ respond first_message ∷ []

history-Refines_example :
    (history (promise toy) day (view bob_keys) 5 ≡ (
      (history (perform toy) day bob_keys 5).0,
      view (history (perform toy) day bob_keys 5).1,
      (history (perform toy) day bob_keys 5).2,
    ))
    × IsMaterial toy (history (perform toy) day bob_keys 5).1
history-Refines_example = history-Refines toy day bob_keys 5 bob_keys-IsMaterial

history-IsMaterial_example :
    Ensures
      (λ m. IsMaterial toy (history (perform toy) day m 5).1)
      (generate_material toy 7 2000 tt 0).0
history-IsMaterial_example = history-IsMaterial toy 7 2000 0 5 day

accept-Atomic_example : Atomic bob_keys 3 (accept toy first_message bob_keys 3)
accept-Atomic_example = accept-Atomic toy first_message bob_keys 3

first_message-verifies : verify_identity toy first_message.initiator_identity ≡ ok tt
unfolding first_message verify_identity verify identity_public local_public sign from_seed
    identity_binding_transcript bytes_eq concat
first_message-verifies = refl

accept-once_example :
    accept toy first_message (history (perform toy) busy bob_left 5).1 9
    ≡ (err ratchet_state_mismatch, (history (perform toy) busy bob_left 5).1, 9)
unfolding first_message
accept-once_example =
    accept-once toy bob_keys bob_left 0 0 5 9 19 busy first_message first_message bob_result
      bob_keys-IsMaterial bob-accepts refl (omega arith, (tt, (tt, tt))) refl first_message-verifies
