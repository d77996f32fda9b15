-- ===== src/Handshake/Material.antt =====
-- handshake.rs: `LocalIdentity`, and `ResponderPrekeyMaterial` with the calls that manage prekeys.
use mef.Prelude.{ℕ, ◌||◌, Bool, List, [], ◌∷◌, ◌++◌, Option, none, some, length, ◌==◌}
use mef.Error.{fail_if, ok_or, invalid_state}
use mef.Effect.{M, lift, get, modify, pure, inside, ◌>>=◌, ◌>>◌}
use mef.Vec.{any, position, remove}
use mef.Crypto.Primitives.{Primitives}
use mef.Keys.Dh.{DhKeyPair, generate, from_secret}
use mef.Keys.Identity.{IdentityKeyPair}
use mef.Keys.Prekey.{SignedPrekey, generate_identity, issue}
use mef.Handshake.Message.{IdentityDhPublic, identity_public}
use mef.Handshake.Bundle.{OneTimePrekeyPublic, ResponderPrekeyBundle}

pub record LocalIdentity : Type 0 where
  pub signing : IdentityKeyPair
  pub dh : DhKeyPair

-- `LocalIdentity::generate`.
unfoldable pub generate_local : Primitives → M (Unit {0}) LocalIdentity
generate_local p = do
  signing ← generate_identity p
  dh ← generate p
  pure (record { signing = signing; dh = dh })

-- `LocalIdentity::public`.
unfoldable pub local_public : Primitives → LocalIdentity → IdentityDhPublic
unfolding identity_public
local_public p i = identity_public p i.signing i.dh.public

pub record OneTimePrekey : Type 0 where
  pub public : OneTimePrekeyPublic
  pub key : DhKeyPair

pub record ResponderPrekeyMaterial : Type 0 where
  pub identity : LocalIdentity
  pub signed_prekey : DhKeyPair
  pub signed_record : SignedPrekey
  pub retired_signed_prekeys : List (SignedPrekey × DhKeyPair)
  pub one_time_prekeys : List OneTimePrekey

-- `ResponderPrekeyMaterial::generate`.
unfoldable pub generate_material : Primitives → ℕ → ℕ → M (Unit {0}) ResponderPrekeyMaterial
generate_material p signed_prekey_id expires_at = do
  identity ← generate_local p
  signed_prekey ← generate p
  pure (record {
    identity = identity;
    signed_prekey = signed_prekey;
    signed_record = issue p identity.signing signed_prekey_id signed_prekey.public expires_at;
    retired_signed_prekeys = [];
    one_time_prekeys = [];
  })

-- `self.one_time_prekeys.first().map(|entry| entry.public)`.
abbrev pub first_offer : List OneTimePrekey → Option OneTimePrekeyPublic
first_offer [] = none
first_offer (entry ∷ entries) = some entry.public

unfoldable pub bundle : Primitives → ResponderPrekeyMaterial → ResponderPrekeyBundle
unfolding local_public
bundle p m = record {
  identity = local_public p m.identity;
  signed_prekey = m.signed_record;
  one_time_prekey = first_offer m.one_time_prekeys;
}

-- The closures of the searches by identifier.
abbrev pub is_one_time : ℕ → OneTimePrekey → Bool
is_one_time id entry = entry.public.id == id

abbrev pub is_retired : ℕ → SignedPrekey × DhKeyPair → Bool
is_retired id (signed, key) = signed.key_id == id

unfoldable pub add_one_time_prekey : Primitives → ℕ → M ResponderPrekeyMaterial (Unit {0})
add_one_time_prekey p id = do
  m ← get
  lift (fail_if (any (is_one_time id) m.one_time_prekeys) invalid_state)
  key ← inside (generate p)
  modify (λ m. record m {
    one_time_prekeys =
        m.one_time_prekeys
        ++ (record { public = record { id = id; public = key.public }; key = key } ∷ []);
  })

abbrev pub available_one_time_prekeys : ResponderPrekeyMaterial → ℕ
available_one_time_prekeys m = length m.one_time_prekeys

unfoldable pub rotate_signed_prekey : Primitives → ℕ → ℕ → M ResponderPrekeyMaterial (Unit {0})
rotate_signed_prekey p id expires_at = do
  m ← get
  lift (
      fail_if (m.signed_record.key_id == id || any (is_retired id) m.retired_signed_prekeys)
        invalid_state)
  key ← inside (generate p)
  let retired = from_secret p m.signed_prekey.secret
  modify (λ m. record m {
    retired_signed_prekeys = m.retired_signed_prekeys ++ ((m.signed_record, retired) ∷ []);
  })
  modify (λ m. record m { signed_record = issue p m.identity.signing id key.public expires_at })
  modify (λ m. record m { signed_prekey = key })

unfoldable pub retire_signed_prekey : ℕ → M ResponderPrekeyMaterial (Unit {0})
retire_signed_prekey id = do
  m ← get
  index ← lift (ok_or (position (is_retired id) m.retired_signed_prekeys) invalid_state)
  rest ← lift (remove index m.retired_signed_prekeys)
  modify (λ m. record m { retired_signed_prekeys = rest })
