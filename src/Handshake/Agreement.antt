-- ===== src/Handshake/Agreement.antt =====
-- handshake.rs: `initiate` and `accept`, and the values that both derive.
use mef.Prelude.{ℕ, List, [], ◌∷◌, Option, none, some, Bytes, codes, if◌then◌else◌, ◌==◌}
use mef.Error as Error
use mef.Error.{Result, ok, ok_or, ratchet_state_mismatch}
use mef.Effect.{M, lift, get, modify, pure, ◌>>=◌, ◌>>◌}
use mef.Vec.{position, elem_at, remove}
use mef.Wire.{concat}
use mef.Crypto.Primitives.{Primitives}
use mef.Crypto.Kdf.{blake3_id, derive_secret}
use mef.Keys.Dh.{DhKeyPair, DhPublicKey, DhSecretKey, generate, from_secret, diffie_hellman}
use mef.Keys.Prekey.{SignedPrekey}
use mef.Handshake.Authenticated.{AuthenticatedHandshake, initiator, responder}
use mef.Handshake.Message.{IdentityDhPublic, InitiatorHandshake, encode_message, verify_identity}
use mef.Handshake.Bundle.{OneTimePrekeyPublic, ResponderPrekeyBundle, verify_bundle}
use mef.Handshake.Material.{LocalIdentity, ResponderPrekeyMaterial, local_public, is_one_time}

abbrev pub handshake_session_label : Bytes
handshake_session_label = codes "handshake-session-v1"

abbrev pub handshake_root_label : Bytes
handshake_root_label = codes "handshake-x3dh-root-v1"

unfoldable pub identity_public_wire : IdentityDhPublic → Bytes
identity_public_wire i = concat (i.signing ∷ i.dh ∷ i.signature ∷ [])

-- What is appended for `dh4`.
abbrev pub fourth_part : Option Bytes → List Bytes
fourth_part none = []
fourth_part (some value) = value ∷ []

unfoldable pub derive_handshake_values :
    Primitives
    → InitiatorHandshake
    → IdentityDhPublic
    → Bytes
    → Bytes
    → Bytes
    → Option Bytes
    → Result (Bytes × Bytes)
derive_handshake_values p message responder_identity dh1 dh2 dh3 dh4 =
    Error.◌>>=◌
      (blake3_id p handshake_session_label
        (encode_message message ∷ identity_public_wire responder_identity ∷ []))
      λ session_id.
        Error.◌>>=◌
          (derive_secret p session_id handshake_root_label
            (concat (dh1 ∷ dh2 ∷ dh3 ∷ fourth_part dh4)))
          λ root_secret. ok (session_id, root_secret)

-- The fourth agreement, at the initiator: with the one-time prekey, if there is one.
unfoldable pub offered_dh :
    Primitives → DhSecretKey → Option OneTimePrekeyPublic → Result (Option Bytes)
offered_dh p secret none = ok none
offered_dh p secret (some prekey) =
    Error.◌>>=◌ (diffie_hellman p secret prekey.public) λ shared. ok (some shared)

-- `bundle.one_time_prekey.map(OneTimePrekeyPublic::id)`.
abbrev pub offered_id : Option OneTimePrekeyPublic → Option ℕ
offered_id none = none
offered_id (some prekey) = some prekey.id

unfoldable pub initiate :
    Primitives
    → LocalIdentity
    → ResponderPrekeyBundle
    → ℕ
    → M (Unit {0}) (InitiatorHandshake × AuthenticatedHandshake)
initiate p identity bundle now = do
  lift (verify_bundle p bundle now)
  ephemeral ← generate p
  ratchet ← generate p
  dh1 ← lift (diffie_hellman p identity.dh.secret bundle.signed_prekey.public)
  dh2 ← lift (diffie_hellman p ephemeral.secret bundle.identity.dh)
  dh3 ← lift (diffie_hellman p ephemeral.secret bundle.signed_prekey.public)
  dh4 ← lift (offered_dh p ephemeral.secret bundle.one_time_prekey)
  let message : InitiatorHandshake = record {
    initiator_identity = local_public p identity;
    initiator_ephemeral = ephemeral.public;
    initiator_ratchet = ratchet.public;
    signed_prekey_id = bundle.signed_prekey.key_id;
    one_time_prekey_id = offered_id bundle.one_time_prekey;
  }
  (session_id, root_secret) ←
      lift (derive_handshake_values p message bundle.identity dh1 dh2 dh3 dh4)
  pure (
    message,
    record {
      session_id = session_id;
      root_secret = root_secret;
      role = initiator;
      local_ratchet = ratchet;
      remote_ratchet = bundle.signed_prekey.public;
    },
  )

-- `iter().find` of the retained prekey with the identifier.
unfoldable pub find_retired : ℕ → List (SignedPrekey × DhKeyPair) → Option DhKeyPair
find_retired id [] = none
find_retired id ((signed, key) ∷ rest) =
    if signed.key_id == id then some key else find_retired id rest

-- The signed prekey that the message names, the current one or a retained one.
unfoldable pub signed_prekey_for : Primitives → ResponderPrekeyMaterial → ℕ → Result DhKeyPair
signed_prekey_for p m id =
    if id == m.signed_record.key_id
    then ok (from_secret p m.signed_prekey.secret)
    else Error.◌>>=◌ (ok_or (find_retired id m.retired_signed_prekeys) ratchet_state_mismatch)
        λ key. ok (from_secret p key.secret)

-- The position of the one-time prekey that the message names, if it names one.
unfoldable pub one_time_index : ResponderPrekeyMaterial → Option ℕ → Result (Option ℕ)
one_time_index m none = ok none
one_time_index m (some id) =
    Error.◌>>=◌ (ok_or (position (is_one_time id) m.one_time_prekeys) ratchet_state_mismatch)
      λ index. ok (some index)

-- The fourth agreement, at the responder.
unfoldable pub accepted_dh :
    Primitives → ResponderPrekeyMaterial → DhPublicKey → Option ℕ → Result (Option Bytes)
accepted_dh p m ephemeral none = ok none
accepted_dh p m ephemeral (some index) =
    Error.◌>>=◌ (elem_at index m.one_time_prekeys)
      λ entry. Error.◌>>=◌ (diffie_hellman p entry.key.secret ephemeral) λ shared. ok (some shared)

-- `if let Some(index) = one_time_index { one_time_prekeys.remove(index) }`.
unfoldable pub consume : Option ℕ → M ResponderPrekeyMaterial (Unit {0})
consume none = pure tt
consume (some index) = do
  m ← get
  rest ← lift (remove index m.one_time_prekeys)
  modify (λ m. record m { one_time_prekeys = rest })

unfoldable pub accept :
    Primitives → InitiatorHandshake → M ResponderPrekeyMaterial AuthenticatedHandshake
unfolding consume
accept p message = do
  m ← get
  lift (verify_identity p message.initiator_identity)
  signed_prekey ← lift (signed_prekey_for p m message.signed_prekey_id)
  index ← lift (one_time_index m message.one_time_prekey_id)
  dh1 ← lift (diffie_hellman p signed_prekey.secret message.initiator_identity.dh)
  dh2 ← lift (diffie_hellman p m.identity.dh.secret message.initiator_ephemeral)
  dh3 ← lift (diffie_hellman p signed_prekey.secret message.initiator_ephemeral)
  dh4 ← lift (accepted_dh p m message.initiator_ephemeral index)
  (session_id, root_secret) ←
      lift (derive_handshake_values p message (local_public p m.identity) dh1 dh2 dh3 dh4)
  consume index
  pure (record {
    session_id = session_id;
    root_secret = root_secret;
    role = responder;
    local_ratchet = signed_prekey;
    remote_ratchet = message.initiator_ratchet;
  })
