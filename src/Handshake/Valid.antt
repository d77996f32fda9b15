-- ===== src/Handshake/Valid.antt =====
-- handshake.rs: what holds of a responder's material between two calls, and its abstract view.
use mef.Prelude.{ℕ, ◌≡◌, false, Option, some, List, All, ◌==◌, if◌then◌else◌}
use mathlib.Core.Option
use mef.Vec.Keyed.{has, find, Distinct}
use mef.Crypto.Primitives.{Primitives}
use mef.Keys.Dh.{DhKeyPair}
use mef.Keys.Identity.{from_seed}
use mef.Keys.Prekey.{SignedPrekey, issue}
use mef.Handshake.Material.{LocalIdentity, OneTimePrekey, ResponderPrekeyMaterial}
use mef.Handshake.Store.{PrekeyStore}

abbrev pub IsPair : Primitives → DhKeyPair → Type 0
IsPair p key = key.public ≡ p.x25519_public key.secret

pub record IsLocal (p : Primitives) (i : LocalIdentity) : Type 0 where
  pub signing_derived : i.signing ≡ from_seed p i.signing.signing
  pub dh_pair : IsPair p i.dh

-- A record that the identity issued for the key pair.
pub record IsRecord (p : Primitives) (i : LocalIdentity) (signed : SignedPrekey) (key : DhKeyPair)
    : Type 0 where
  pub pair : IsPair p key
  pub same_key : signed.public ≡ key.public
  pub issued : signed ≡ issue p i.signing signed.key_id signed.public signed.expires_at_unix

abbrev pub IsRetired : Primitives → LocalIdentity → SignedPrekey × DhKeyPair → Type 0
IsRetired p i (signed, key) = IsRecord p i signed key

abbrev pub IsOffer : Primitives → OneTimePrekey → Type 0
IsOffer p entry = IsPair p entry.key × (entry.public.public ≡ entry.key.public)

abbrev pub retired_id : SignedPrekey × DhKeyPair → ℕ
retired_id (signed, key) = signed.key_id

abbrev pub one_time_id : OneTimePrekey → ℕ
one_time_id entry = entry.public.id

pub record IsMaterial (p : Primitives) (m : ResponderPrekeyMaterial) : Type 0 where
  pub local : IsLocal p m.identity
  pub current : IsRecord p m.identity m.signed_record m.signed_prekey
  pub retired : All (IsRetired p m.identity) m.retired_signed_prekeys
  pub retired_distinct : Distinct retired_id m.retired_signed_prekeys
  pub current_distinct : has retired_id m.signed_record.key_id m.retired_signed_prekeys ≡ false
  pub offers : All (IsOffer p) m.one_time_prekeys
  pub offers_distinct : Distinct one_time_id m.one_time_prekeys

abbrev pub signed_in : ℕ → DhKeyPair → List (SignedPrekey × DhKeyPair) → ℕ → Option DhKeyPair
signed_in current key retired id =
    if id == current
    then some key
    else Option.map (λ (e : SignedPrekey × DhKeyPair). e.1) (find retired_id id retired)

abbrev pub one_time_in : List OneTimePrekey → ℕ → Option DhKeyPair
one_time_in entries id = Option.map (λ (e : OneTimePrekey). e.key) (find one_time_id id entries)

abbrev pub view : ResponderPrekeyMaterial → PrekeyStore
view m = record {
  identity = m.identity;
  current = m.signed_record.key_id;
  signed = signed_in m.signed_record.key_id m.signed_prekey m.retired_signed_prekeys;
  one_time = one_time_in m.one_time_prekeys;
}
