-- ===== src/Hybrid/Calls.antt =====
-- hybrid.rs: any sequence of calls on a hybrid responder's material. The classical material goes
-- through the same calls, and the ML-KEM key pair stays.
use mef.Prelude.{ℕ, ◌≡◌, refl, List, [], ◌∷◌}
use mef.Error.{Result, ok, err, panic}
use mef.Effect.{M, after, lift, ◌>>=◌}
use mef.Crypto.Primitives.{Primitives}
use mef.Pq.{decapsulate}
use mef.Pq.Kem.{MlKem}
use mef.Handshake.Material.{ResponderPrekeyMaterial}
use mef.Handshake.Agreement.{accept}
use mef.Handshake.Service.{Call, add, respond, perform, history}
use mef.Hybrid.Message.{HybridInitiatorHandshake}
use mef.Hybrid.Agreement.{
  HybridResponderPrekeyMaterial, on_classical, add_hybrid_prekey, accept_hybrid, mix_ml_kem768,
}

pub data HybridCall : Type 0 where
  add_prekey : ℕ → HybridCall
  answer_hybrid : HybridInitiatorHandshake → HybridCall

abbrev pub classical_call : HybridCall → Call
classical_call (add_prekey id) = add id
classical_call (answer_hybrid message) = respond message.classical

abbrev pub classical_calls : List HybridCall → List Call
classical_calls [] = []
classical_calls (call ∷ calls) = classical_call call ∷ classical_calls calls

-- The material with another classical part.
abbrev pub with_classical :
    {D E : Type 0}
    → HybridResponderPrekeyMaterial D E
    → ResponderPrekeyMaterial
    → HybridResponderPrekeyMaterial D E
with_classical m classical = record m { classical = classical }

-- What a call leaves of the object, and the number of requests.
abbrev pub left_by : {S A : Type 0} → Result A × S × ℕ → S × ℕ
left_by (reply, s, g) = (s, g)

module _ {D E : Type 0} (p : Primitives) (q : MlKem D E) where
  unfoldable pub step_hybrid :
      HybridCall → HybridResponderPrekeyMaterial D E → ℕ → HybridResponderPrekeyMaterial D E × ℕ
  step_hybrid (add_prekey id) m g = left_by (add_hybrid_prekey p q id m g)
  step_hybrid (answer_hybrid message) m g = left_by (accept_hybrid p q message m g)

  unfoldable pub run_hybrid :
      List HybridCall
      → HybridResponderPrekeyMaterial D E
      → ℕ
      → HybridResponderPrekeyMaterial D E × ℕ
  run_hybrid [] m g = (m, g)
  run_hybrid (call ∷ calls) m g = let (m', g') = step_hybrid call m g in run_hybrid calls m' g'

-- Steps that only read leave what the call before them left.
after-left :
    {S A B : Type 0} (k : A → M S B) (out : Result A × S × ℕ)
    → ((a : A) (s : S) (g : ℕ) → left_by (k a s g) ≡ (s, g))
    → left_by (after out k) ≡ left_by out
after-left k (ok a, s, g) reads = reads a s g
after-left k (err e, s, g) reads = refl
after-left k (panic, s, g) reads = refl

lift-left :
    {S A B : Type 0} (r : Result A) (rest : A → Result B) (s : S) (g : ℕ)
    → left_by ((lift r >>= λ a. lift (rest a)) s g) ≡ (s, g)
lift-left (ok a) rest s g = refl
lift-left (err e) rest s g = refl
lift-left panic rest s g = refl

module _ {D E : Type 0} (p : Primitives) (q : MlKem D E) where
  pub accept_hybrid-left :
      (message : HybridInitiatorHandshake) (m : HybridResponderPrekeyMaterial D E) (g : ℕ)
      → left_by (accept_hybrid p q message m g) ≡ (
        with_classical m (accept p message.classical m.classical g).1,
        (accept p message.classical m.classical g).2,
      )
  unfolding accept_hybrid
  accept_hybrid-left message m g =
      after-left _ (on_classical (accept p message.classical) m g) λ classical s k.
        lift-left (decapsulate q s.pq message.pq_ciphertext) (mix_ml_kem768 p classical) s k

  step_hybrid-left :
      (call : HybridCall) (m : HybridResponderPrekeyMaterial D E) (g : ℕ)
      → step_hybrid p q call m g ≡ (
        with_classical m (perform p (classical_call call) m.classical g).1,
        (perform p (classical_call call) m.classical g).2,
      )
  unfolding step_hybrid add_hybrid_prekey perform
  step_hybrid-left (add_prekey id) m g = refl
  step_hybrid-left (answer_hybrid message) m g = accept_hybrid-left message m g

  pub run_hybrid-history :
      (calls : List HybridCall) (m : HybridResponderPrekeyMaterial D E) (g : ℕ)
      → run_hybrid p q calls m g ≡ (
        with_classical m (history (perform p) (classical_calls calls) m.classical g).1,
        (history (perform p) (classical_calls calls) m.classical g).2,
      )
  unfolding run_hybrid
  run_hybrid-history [] m g = refl
  run_hybrid-history (call ∷ calls) m g = rw (step_hybrid-left call m g) (
      run_hybrid-history calls (with_classical m (perform p (classical_call call) m.classical g).1)
        (perform p (classical_call call) m.classical g).2)
