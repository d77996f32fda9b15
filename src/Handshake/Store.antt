-- ===== src/Handshake/Store.antt =====
-- What the calls on `ResponderPrekeyMaterial` of handshake.rs promise, with the vectors and their
-- order left out: which key pair answers to an identifier.
use mef.Prelude.{ℕ, Bool, true, false, Option, none, some, Bytes, ◌==◌, if◌then◌else◌}
use mef.Error as Error
use mef.Error.{Result, ok, fail_if, ok_or, invalid_state, ratchet_state_mismatch}
use mef.Effect.{M, lift, get, modify, pure, inside, ◌>>=◌, ◌>>◌}
use mef.Crypto.Primitives.{Primitives}
use mef.Keys.Dh.{DhKeyPair, DhPublicKey, generate, diffie_hellman}
use mef.Handshake.Authenticated.{AuthenticatedHandshake, responder}
use mef.Handshake.Message.{InitiatorHandshake, verify_identity}
use mef.Handshake.Material.{LocalIdentity, local_public}
use mef.Handshake.Agreement.{derive_handshake_values}

pub record PrekeyStore : Type 0 where
  pub identity : LocalIdentity
  pub current : ℕ
  pub signed : ℕ → Option DhKeyPair
  pub one_time : ℕ → Option DhKeyPair

abbrev pub set_key : ℕ → Option DhKeyPair → (ℕ → Option DhKeyPair) → ℕ → Option DhKeyPair
set_key id key keys j = if j == id then key else keys j

abbrev pub is_some : Option DhKeyPair → Bool
is_some none = false
is_some (some key) = true

unfoldable pub add_key : Primitives → ℕ → M PrekeyStore (Unit {0})
add_key p id = do
  s ← get
  lift (fail_if (is_some (s.one_time id)) invalid_state)
  key ← inside (generate p)
  modify (λ s. record s { one_time = set_key id (some key) s.one_time })

unfoldable pub rotate_key : Primitives → ℕ → M PrekeyStore (Unit {0})
rotate_key p id = do
  s ← get
  lift (fail_if (is_some (s.signed id)) invalid_state)
  key ← inside (generate p)
  modify (λ s. record s { current = id; signed = set_key id (some key) s.signed })

-- A key that is not the current one.
abbrev pub retained : PrekeyStore → ℕ → Option DhKeyPair
retained s id = if id == s.current then none else s.signed id

unfoldable pub retire_key : ℕ → M PrekeyStore (Unit {0})
retire_key id = do
  s ← get
  _ ← lift (ok_or (retained s id) invalid_state)
  modify (λ s. record s { signed = set_key id none s.signed })

-- The one-time key that a message asks for, if it asks for one.
abbrev pub requested : PrekeyStore → Option ℕ → Result (Option DhKeyPair)
requested s none = ok none
requested s (some id) =
    Error.◌>>=◌ (ok_or (s.one_time id) ratchet_state_mismatch) λ key. ok (some key)

abbrev pub requested_dh : Primitives → DhPublicKey → Option DhKeyPair → Result (Option Bytes)
requested_dh p ephemeral none = ok none
requested_dh p ephemeral (some key) =
    Error.◌>>=◌ (diffie_hellman p key.secret ephemeral) λ shared. ok (some shared)

abbrev pub forget : Option ℕ → (ℕ → Option DhKeyPair) → ℕ → Option DhKeyPair
forget none keys = keys
forget (some id) keys = set_key id none keys

unfoldable pub accept_message :
    Primitives → InitiatorHandshake → M PrekeyStore AuthenticatedHandshake
accept_message p message = do
  s ← get
  lift (verify_identity p message.initiator_identity)
  key ← lift (ok_or (s.signed message.signed_prekey_id) ratchet_state_mismatch)
  one_time ← lift (requested s message.one_time_prekey_id)
  dh1 ← lift (diffie_hellman p key.secret message.initiator_identity.dh)
  dh2 ← lift (diffie_hellman p s.identity.dh.secret message.initiator_ephemeral)
  dh3 ← lift (diffie_hellman p key.secret message.initiator_ephemeral)
  dh4 ← lift (requested_dh p message.initiator_ephemeral one_time)
  (session_id, root_secret) ←
      lift (derive_handshake_values p message (local_public p s.identity) dh1 dh2 dh3 dh4)
  modify (λ s. record s { one_time = forget message.one_time_prekey_id s.one_time })
  pure (record {
    session_id = session_id;
    root_secret = root_secret;
    role = responder;
    local_ratchet = key;
    remote_ratchet = message.initiator_ratchet;
  })
