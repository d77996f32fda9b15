-- ===== src/Handshake/Fresh.antt =====
-- handshake.rs: new material, and what holds of it after any calls.
use mef.Prelude.{ℕ, ◌+◌, ◌≡◌, refl, ◌⊎◌, inl, inr, List, Option-cases}
use mef.Error.{ok, err, Ensures, Ensures-map, randomness_unavailable}
use mef.Crypto.Primitives.{Primitives}
use mef.Vec.{any}
use mef.Crypto.Seal.{random_bytes}
use mef.Keys.Identity.{IdentityKeyPair, from_seed}
use mef.Keys.Prekey.{generate_identity, issue}
use mef.Handshake.Material.{generate_local, generate_material}
use mef.Handshake.Valid.{IsLocal, IsMaterial}
use mef.Handshake.Refines.{generate-cases}
use mef.Handshake.Service.{Call, perform, history, history-Refines}

generate_identity-cases :
    (p : Primitives) (g : ℕ)
    → (generate_identity p tt g ≡ (err randomness_unavailable, tt, g + 1))
      ⊎ ((pair : IdentityKeyPair) × (generate_identity p tt g ≡ (ok pair, tt, g + 1))
          × (pair ≡ from_seed p pair.signing))
unfolding generate_identity random_bytes from_seed
generate_identity-cases p g = elim (Option-cases (p.try_fill_bytes g 32)) [
  | inl dry ↦ inl (rw dry refl)
  | inr (seed, filled) ↦ inr (from_seed p seed, rw filled refl, refl)
]

generate_local-IsLocal : (p : Primitives) (g : ℕ) → Ensures (IsLocal p) (generate_local p tt g).0
unfolding generate_local
generate_local-IsLocal p g = elim (generate_identity-cases p g) [
  | inl dry ↦ rw dry tt
  | inr (signing, made, derived) ↦ elim (generate-cases p (g + 1)) [
    | inl dry ↦ rw (made, dry) tt
    | inr (dh, drawn, pair) ↦
        rw (made, drawn) (record { signing_derived = derived; dh_pair = pair })
  ]
]

pub generate_material-IsMaterial :
    (p : Primitives) (signed_prekey_id expires_at g : ℕ)
    → Ensures (IsMaterial p) (generate_material p signed_prekey_id expires_at tt g).0
unfolding generate_material generate_local issue any
generate_material-IsMaterial p signed_prekey_id expires_at g = elim (generate_identity-cases p g) [
  | inl dry ↦ rw dry tt
  | inr (signing, made, derived) ↦ elim (generate-cases p (g + 1)) [
    | inl dry ↦ rw (made, dry) tt
    | inr (dh, drawn, pair) ↦ elim (generate-cases p (g + 1 + 1)) [
      | inl dry ↦ rw (made, drawn, dry) tt
      | inr (key, drawn', pair') ↦
          rw (made, drawn, drawn')
            (record {
              local = record { signing_derived = derived; dh_pair = pair };
              current = record { pair = pair'; same_key = refl; issued = refl };
              retired = tt;
              retired_distinct = tt;
              current_distinct = refl;
              offers = tt;
              offers_distinct = tt;
            })
    ]
  ]
]

-- Material made at the start stays valid through any calls, failed ones included: each identifier of
-- a signed or one-time prekey stands once, each key pair's public half is that of its secret, and
-- each signed record is the identity's signature for its key pair.
pub history-IsMaterial :
    (p : Primitives) (signed_prekey_id expires_at g k : ℕ) (calls : List Call)
    → Ensures
        (λ m. IsMaterial p (history (perform p) calls m k).1)
        (generate_material p signed_prekey_id expires_at tt g).0
history-IsMaterial p signed_prekey_id expires_at g k calls =
    Ensures-map (IsMaterial p) (λ m. IsMaterial p (history (perform p) calls m k).1)
      (λ m v. (history-Refines p calls m k v).1)
      (generate_material p signed_prekey_id expires_at tt g).0
      (generate_material-IsMaterial p signed_prekey_id expires_at g)
