-- ===== src/Hybrid/Agreement.antt =====
-- hybrid.rs: `HybridResponderPrekeyMaterial` and `initiate`, and `mix_ml_kem768` of handshake.rs.
use mef.Prelude.{ℕ, [], ◌∷◌, Bytes, codes}
use mef.Error as Error
use mef.Error.{Result, ok}
use mef.Effect.{M, lift, get, pure, ◌>>=◌, ◌>>◌}
use mef.Wire.{concat}
use mef.Crypto.Primitives.{Primitives}
use mef.Crypto.Kdf.{blake3_id, derive_secret}
use mef.Keys.Identity.{sign}
use mef.Pq.{MlKem768KeyPair, generate_key_pair, encapsulate, decapsulate}
use mef.Pq.Kem.{MlKem}
use mef.Handshake.Authenticated.{AuthenticatedHandshake}
use mef.Handshake.Material.{
  LocalIdentity, ResponderPrekeyMaterial, generate_material, bundle, add_one_time_prekey,
  available_one_time_prekeys,
}
use mef.Handshake.Agreement.{initiate, accept}
use mef.Hybrid.Bundle.{HybridResponderPrekeyBundle, binding_transcript, verify_hybrid_bundle}
use mef.Hybrid.Message.{HybridInitiatorHandshake}

abbrev pub hybrid_session_label : Bytes
hybrid_session_label = codes "handshake-hybrid-mlkem768-session-v1"

abbrev pub hybrid_root_label : Bytes
hybrid_root_label = codes "handshake-hybrid-mlkem768-root-v1"

-- `AuthenticatedHandshake::mix_ml_kem768`.
unfoldable pub mix_ml_kem768 :
    Primitives → AuthenticatedHandshake → Bytes → Result AuthenticatedHandshake
mix_ml_kem768 p h shared =
    Error.◌>>=◌ (blake3_id p hybrid_session_label (h.session_id ∷ shared ∷ [])) λ session_id.
      Error.◌>>=◌
        (derive_secret p session_id hybrid_root_label (concat (h.root_secret ∷ shared ∷ [])))
        λ root_secret. ok (record h { session_id = session_id; root_secret = root_secret })

pub record HybridResponderPrekeyMaterial (D E : Type 0) : Type 0 where
  pub classical : ResponderPrekeyMaterial
  pub pq : MlKem768KeyPair D E

-- A method of the field `classical`.
abbrev pub on_classical :
    {D E A : Type 0} → M ResponderPrekeyMaterial A → M (HybridResponderPrekeyMaterial D E) A
on_classical call m g =
    let (reply, classical, g') = call m.classical g in
    (reply, record m { classical = classical }, g')

module _ {D E : Type 0} (p : Primitives) (q : MlKem D E) where
  -- `HybridResponderPrekeyMaterial::generate`.
  unfoldable pub generate_hybrid : ℕ → ℕ → M (Unit {0}) (HybridResponderPrekeyMaterial D E)
  generate_hybrid signed_prekey_id expires_at = do
    classical ← generate_material p signed_prekey_id expires_at
    pq ← generate_key_pair q
    pure (record { classical = classical; pq = pq })

  -- `HybridResponderPrekeyMaterial::bundle`.
  unfoldable pub hybrid_bundle :
      HybridResponderPrekeyMaterial D E → Result (HybridResponderPrekeyBundle E)
  hybrid_bundle m =
      let classical = bundle p m.classical in
      Error.◌>>=◌ (binding_transcript p q classical m.pq.public) λ transcript. ok (record {
        classical = classical;
        pq_public = m.pq.public;
        pq_signature = sign p m.classical.identity.signing transcript;
      })

  unfoldable pub add_hybrid_prekey : ℕ → M (HybridResponderPrekeyMaterial D E) (Unit {0})
  add_hybrid_prekey id = on_classical (add_one_time_prekey p id)

  -- `HybridResponderPrekeyMaterial::accept`.
  unfoldable pub accept_hybrid :
      HybridInitiatorHandshake → M (HybridResponderPrekeyMaterial D E) AuthenticatedHandshake
  accept_hybrid message = do
    classical ← on_classical (accept p message.classical)
    m ← get
    shared ← lift (decapsulate q m.pq message.pq_ciphertext)
    lift (mix_ml_kem768 p classical shared)

  unfoldable pub initiate_hybrid :
      LocalIdentity
      → HybridResponderPrekeyBundle E
      → ℕ
      → M (Unit {0}) (HybridInitiatorHandshake × AuthenticatedHandshake)
  initiate_hybrid identity b now = do
    lift (verify_hybrid_bundle p q b now)
    (classical, handshake) ← initiate p identity b.classical now
    (pq_ciphertext, shared) ← encapsulate p q b.pq_public
    mixed ← lift (mix_ml_kem768 p handshake shared)
    pure (record { classical = classical; pq_ciphertext = pq_ciphertext }, mixed)

abbrev pub available_hybrid_prekeys : {D E : Type 0} → HybridResponderPrekeyMaterial D E → ℕ
available_hybrid_prekeys m = available_one_time_prekeys m.classical
