-- ===== src/Hybrid/Valid.antt =====
-- hybrid.rs: what holds of a hybrid responder's material between two calls.
use mef.Prelude.{ℕ, ◌≡◌, refl, inl, inr, List, Option-cases}
use mef.Error.{Ensures, Ensures-map}
use mef.Effect.Laws.{after-Ensures}
use mef.Crypto.Primitives.{Primitives}
use mef.Pq.{MlKem768KeyPair, generate_key_pair}
use mef.Pq.Kem.{MlKem}
use mef.Handshake.Material.{generate_material}
use mef.Handshake.Valid.{IsMaterial}
use mef.Handshake.Service.{history-Refines}
use mef.Handshake.Fresh.{generate_material-IsMaterial}
use mef.Hybrid.Agreement.{HybridResponderPrekeyMaterial, generate_hybrid}
use mef.Hybrid.Calls.{HybridCall, classical_calls, run_hybrid, run_hybrid-history}

module _ {D E : Type 0} (p : Primitives) (q : MlKem D E) where
  -- The public key is the one of the secret.
  abbrev pub IsKeyPair : MlKem768KeyPair D E → Type 0
  IsKeyPair pair = pair.public ≡ q.encapsulation_key pair.secret

  pub record IsHybrid (m : HybridResponderPrekeyMaterial D E) : Type 0 where
    pub classical_valid : IsMaterial p m.classical
    pub own_key : IsKeyPair m.pq

  generate_key_pair-IsKeyPair : (g : ℕ) → Ensures IsKeyPair (generate_key_pair q tt g).0
  unfolding generate_key_pair
  generate_key_pair-IsKeyPair g = elim (Option-cases (q.try_generate_from_rng g).0) [
    | inl dry ↦ rw dry tt
    | inr (secret, made) ↦ rw made refl
  ]

  generate_hybrid-IsHybrid :
      (signed_prekey_id expires_at g : ℕ)
      → Ensures IsHybrid (generate_hybrid p q signed_prekey_id expires_at tt g).0
  unfolding generate_hybrid
  generate_hybrid-IsHybrid signed_prekey_id expires_at g =
      after-Ensures (IsMaterial p) IsHybrid _ (generate_material p signed_prekey_id expires_at tt g)
        (generate_material-IsMaterial p signed_prekey_id expires_at g)
        λ classical s g' valid.
          after-Ensures IsKeyPair IsHybrid _ (generate_key_pair q s g')
            (generate_key_pair-IsKeyPair g')
            λ pq s' g'' own. record { classical_valid = valid; own_key = own }

  run_hybrid-IsHybrid :
      (calls : List HybridCall) (m : HybridResponderPrekeyMaterial D E) (g : ℕ)
      → IsHybrid m
      → IsHybrid (run_hybrid p q calls m g).0
  run_hybrid-IsHybrid calls m g v =
      let (_, kept) = history-Refines p (classical_calls calls) m.classical g v.classical_valid in
      rw (run_hybrid-history p q calls m g) (record { classical_valid = kept; own_key = v.own_key })

  -- Material that is generated is valid, and stays so after any calls.
  pub generated-IsHybrid :
      (signed_prekey_id expires_at g k : ℕ) (calls : List HybridCall)
      → Ensures
          (λ m. IsHybrid m × IsHybrid (run_hybrid p q calls m k).0)
          (generate_hybrid p q signed_prekey_id expires_at tt g).0
  generated-IsHybrid signed_prekey_id expires_at g k calls =
      Ensures-map IsHybrid _ (λ m v. (v, run_hybrid-IsHybrid calls m k v)) _
        (generate_hybrid-IsHybrid signed_prekey_id expires_at g)
