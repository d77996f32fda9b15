-- ===== src/Handshake/Refines.antt =====
-- handshake.rs: the calls on `ResponderPrekeyMaterial` do what the store promises, and keep what
-- holds of the material.
use mef.Prelude.{
  ℕ, ◌+◌, ◌≡◌, refl, ◌⊎◌, inl, inr, ◌||◌, false, none, some, List, [], ◌∷◌, ◌++◌, All, All-append,
  arith, ◌==◌, ==_iff, Bool-cases, Option-cases,
}
use mef.Error.{ok, err, randomness_unavailable}
use mef.Effect.{M}
use mef.Vec.{any, Picks}
use mef.Vec.Laws.{position-cases, All-Picks}
use mef.Vec.Keyed.{
  has, find, Distinct, Distinct-snoc, find_absent, find_present, has-Picks, Distinct-Picks,
  find-Picks, position-none,
}
use mef.Crypto.Primitives.{Primitives}
use mef.Crypto.Seal.{random_bytes}
use mef.Keys.Dh.{DhKeyPair, generate, from_secret}
use mef.Keys.Prekey.{SignedPrekey, issue}
use mef.Handshake.Material.{
  ResponderPrekeyMaterial, OneTimePrekey, add_one_time_prekey, rotate_signed_prekey,
  retire_signed_prekey, is_retired,
}
use mef.Handshake.Store.{PrekeyStore, add_key, rotate_key, retire_key, retained}
use mef.Handshake.Lookup.{
  one_time_in-snoc, signed_in-snoc, signed_in-is_some, signed_in-Picks, not_in_use,
}
use mef.Handshake.Valid.{IsMaterial, IsPair, IsOffer, IsRetired, one_time_id, retired_id, view}

-- One call: the result and the requests are those of the store, and so is what is left.
abbrev pub Refines :
    {A : Type 0}
    → Primitives
    → M ResponderPrekeyMaterial A
    → M PrekeyStore A
    → ResponderPrekeyMaterial
    → ℕ
    → Type 0
Refines p call promised m g =
    (promised (view m) g ≡ ((call m g).0, view (call m g).1, (call m g).2))
    × IsMaterial p (call m g).1

pub generate-cases :
    (p : Primitives) (g : ℕ)
    → (generate p tt g ≡ (err randomness_unavailable, tt, g + 1))
      ⊎ ((key : DhKeyPair) × (generate p tt g ≡ (ok key, tt, g + 1)) × IsPair p key)
unfolding generate random_bytes from_secret
generate-cases p g = elim (Option-cases (p.try_fill_bytes g 32)) [
  | inl dry ↦ inl (rw dry refl)
  | inr (secret, filled) ↦ inr (from_secret p secret, rw filled refl, refl)
]

pub from_secret-pair :
    (p : Primitives) (key : DhKeyPair) → IsPair p key → from_secret p key.secret ≡ key
unfolding from_secret
from_secret-pair p key h = rw (← h) refl

module _ (p : Primitives) (m : ResponderPrekeyMaterial) (v : IsMaterial p m) where
  pub with_offers :
      (offers : List OneTimePrekey)
      → All (IsOffer p) offers
      → Distinct one_time_id offers
      → IsMaterial p (record m { one_time_prekeys = offers })
  with_offers offers valid distinct = record {
    local = v.local;
    current = v.current;
    retired = v.retired;
    retired_distinct = v.retired_distinct;
    current_distinct = v.current_distinct;
    offers = valid;
    offers_distinct = distinct;
  }

  module _ (g : ℕ) where
    pub add_one_time_prekey-Refines :
        (id : ℕ) → Refines p (add_one_time_prekey p id) (add_key p id) m g
    unfolding add_one_time_prekey add_key
    add_one_time_prekey-Refines id = elim (Bool-cases (has one_time_id id m.one_time_prekeys)) [
      | inl taken ↦
          let (entry, found) = find_present one_time_id id m.one_time_prekeys taken in
          (rw (taken, found) refl, rw taken v)
      | inr free ↦
          let absent = find_absent one_time_id id m.one_time_prekeys free in
          elim (generate-cases p g) [
            | inl dry ↦ (rw (free, absent, dry) refl, rw (free, dry) v)
            | inr (key, made, pair) ↦
                let entry : OneTimePrekey = record {
                  public = record { id = id; public = key.public };
                  key = key;
                } in
                (
                  rw (free, absent, made, one_time_in-snoc m.one_time_prekeys entry free) refl,
                  rw (free, made)
                      (with_offers (m.one_time_prekeys ++ entry ∷ [])
                        (All-append (IsOffer p) m.one_time_prekeys (entry ∷ []) v.offers
                          ((pair, refl), tt))
                        (Distinct-snoc one_time_id m.one_time_prekeys entry v.offers_distinct
                          free)),
                )
          ]
    ]

    rotated :
        (id expires_at : ℕ) (key : DhKeyPair)
        → IsPair p key
        → (m.signed_record.key_id == id || any (is_retired id) m.retired_signed_prekeys) ≡ false
        → IsMaterial p (record m {
          retired_signed_prekeys =
              m.retired_signed_prekeys ++ (m.signed_record, m.signed_prekey) ∷ [];
          signed_record = issue p m.identity.signing id key.public expires_at;
          signed_prekey = key;
        })
    unfolding issue
    rotated id expires_at key pair free =
        let old = m.signed_record.key_id in
        record {
          local = v.local;
          current = record { pair = pair; same_key = refl; issued = refl };
          retired =
              All-append (IsRetired p m.identity) m.retired_signed_prekeys
                ((m.signed_record, m.signed_prekey) ∷ []) v.retired (v.current, tt);
          retired_distinct =
              Distinct-snoc retired_id m.retired_signed_prekeys (m.signed_record, m.signed_prekey)
                v.retired_distinct v.current_distinct;
          current_distinct =
              not_in_use m.signed_record.key_id id (m.signed_record, m.signed_prekey)
                m.retired_signed_prekeys refl free;
          offers = v.offers;
          offers_distinct = v.offers_distinct;
        }

    pub rotate_signed_prekey-Refines :
        (id expires_at : ℕ) → Refines p (rotate_signed_prekey p id expires_at) (rotate_key p id) m g
    unfolding rotate_signed_prekey rotate_key issue
    rotate_signed_prekey-Refines id expires_at =
        let in_use =
          signed_in-is_some m.signed_record.key_id id m.signed_prekey m.retired_signed_prekeys in
        elim (Bool-cases
          (m.signed_record.key_id == id || any (is_retired id) m.retired_signed_prekeys)) [
            | inl taken ↦ (rw (in_use, taken) refl, rw taken v)
            | inr free ↦ elim (generate-cases p g) [
              | inl dry ↦ (rw (in_use, free, dry) refl, rw (free, dry) v)
              | inr (key, made, pair) ↦ (
                rw
                    (
                      in_use,
                      free,
                      made,
                      from_secret-pair p m.signed_prekey v.current.pair,
                      signed_in-snoc id m.signed_prekey key m.signed_record m.retired_signed_prekeys
                          v.current_distinct,
                    )
                    refl,
                rw (free, made, from_secret-pair p m.signed_prekey v.current.pair)
                    (rotated id expires_at key pair free),
              )
            ]
          ]

    retained_absent :
        (id : ℕ) → find retired_id id m.retired_signed_prekeys ≡ none → retained (view m) id ≡ none
    retained_absent id absent = rw absent (ground arith)

    retained_other :
        (id : ℕ) (e : SignedPrekey × DhKeyPair)
        → find retired_id id m.retired_signed_prekeys ≡ some e
        → (id == m.signed_record.key_id) ≡ false
    retained_other id e found = elim (Bool-cases (id == m.signed_record.key_id)) [
      | inl same ↦
          let absent : has retired_id id m.retired_signed_prekeys ≡ false =
            rw ((==_iff id m.signed_record.key_id).0 same) v.current_distinct in
          let none_found = find_absent retired_id id m.retired_signed_prekeys absent in cc
      | inr other ↦ other
    ]

    retained_present :
        (id : ℕ) (e : SignedPrekey × DhKeyPair)
        → find retired_id id m.retired_signed_prekeys ≡ some e
        → retained (view m) id ≡ some e.1
    retained_present id e found = rw (retained_other id e found, found) refl

    retired_without :
        (id : ℕ) {rest : List (SignedPrekey × DhKeyPair)} {e : SignedPrekey × DhKeyPair}
        → Picks (is_retired id) m.retired_signed_prekeys e rest
        → IsMaterial p (record m { retired_signed_prekeys = rest })
    retired_without id picked = record {
      local = v.local;
      current = v.current;
      retired = All-Picks (IsRetired p m.identity) picked v.retired;
      retired_distinct = Distinct-Picks retired_id id picked v.retired_distinct;
      current_distinct = has-Picks retired_id id m.signed_record.key_id picked v.current_distinct;
      offers = v.offers;
      offers_distinct = v.offers_distinct;
    }

    pub retire_signed_prekey-Refines :
        (id : ℕ) → Refines p (retire_signed_prekey id) (retire_key id) m g
    unfolding retire_signed_prekey retire_key
    retire_signed_prekey-Refines id =
        elim (position-cases (is_retired id) m.retired_signed_prekeys) [
          | inl missing ↦
              let absent = position-none retired_id id m.retired_signed_prekeys missing in
              (rw (missing, retained_absent id absent) refl, rw missing v)
          | inr (i, found, f) ↦
              let other = retained_other id f.elem (find-Picks retired_id id f.picked) in
              (
                rw
                    (
                      found,
                      f.removed,
                      retained_present id f.elem (find-Picks retired_id id f.picked),
                      signed_in-Picks m.signed_record.key_id id m.signed_prekey f.picked
                          v.retired_distinct other,
                    )
                    refl,
                rw (found, f.removed) (retired_without id f.picked),
              )
        ]
