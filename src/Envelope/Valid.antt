-- ===== src/Envelope/Valid.antt =====
-- envelope/outer.rs: the envelopes that the types of the source allow, and the layout of `encode`.
use mef.Prelude.{
  ℕ, ◌+◌, ◌≤◌, ◌≡◌, refl, ap, ◌∙◌, List, [], ◌∷◌, ◌++◌, arith, Bytes, length, leb-true,
  length-to_be, u64_max, u32_max, usize_max, append_assoc,
}
use mef.Error.{ok}
use mef.Wire.{concat}
use mef.Wire.Laws.{length-concat}
use mef.Crypto.Suite
use mef.Frame.Valid.{IsCiphertext}
use mef.Keys.Dh.{DhPublicKey}
use mef.Envelope.Outer.{
  OuterEnvelope, outer_suite, outer_fixed_len, aad_segments, encode_aad, from_ciphertext,
  envelope_aad, encode,
}

-- Arrays of the source's widths, a u64, and a checked ciphertext of the envelope's suite.
pub record IsEnvelope (e : OuterEnvelope) : Type 0 where
  pub mailbox_len : length e.mailbox ≡ 32
  pub id_len : length e.message_id ≡ 16
  pub expires_fits : e.expires_at_unix ≤ u64_max
  pub sender_len : length e.sender_ephemeral ≡ 32
  pub suite_fixed : e.ciphertext.suite ≡ outer_suite
  pub ciphertext_valid : IsCiphertext e.ciphertext

abbrev pub outer_aad : Bytes → Bytes → ℕ → DhPublicKey → ℕ → Bytes
outer_aad mailbox message_id expires_at sender n =
    concat (aad_segments mailbox message_id expires_at sender 24 n)

module _ (mailbox message_id : Bytes) (expires_at : ℕ) (sender : DhPublicKey) (n : ℕ)
    (mailbox_len : length mailbox ≡ 32) (id_len : length message_id ≡ 16)
    (sender_len : length sender ≡ 32) where
  pub length-outer_aad : length (outer_aad mailbox message_id expires_at sender n) ≡ outer_fixed_len
  length-outer_aad =
      length-concat (aad_segments mailbox message_id expires_at sender 24 n)
      ∙ omega (arith, mailbox_len, id_len, sender_len, length-to_be 8 expires_at, length-to_be 4 n)

  pub outer_aad-eq :
      n ≤ u32_max
      → encode_aad mailbox message_id expires_at sender n
        ≡ ok (outer_aad mailbox message_id expires_at sender n)
  unfolding encode_aad Suite.nonce_len
  outer_aad-eq fits = rw (leb-true n u32_max fits, length-outer_aad) refl

pub from_ciphertext-eq_envelope :
    (e : OuterEnvelope)
    → IsEnvelope e
    → from_ciphertext e.mailbox e.message_id e.expires_at_unix e.sender_ephemeral e.ciphertext
      ≡ ok e
unfolding from_ciphertext
from_ciphertext-eq_envelope e v =
    let n = length e.ciphertext.body in
    let small = v.ciphertext_valid.body_high in
    rw
      (
        v.suite_fixed,
        Suite.same_refl outer_suite,
        outer_aad-eq e.mailbox e.message_id e.expires_at_unix e.sender_ephemeral n v.mailbox_len
            v.id_len v.sender_len (omega arith),
        length-outer_aad e.mailbox e.message_id e.expires_at_unix e.sender_ephemeral n v.mailbox_len
            v.id_len v.sender_len,
      )
      refl

abbrev pub envelope_segments : OuterEnvelope → List Bytes
envelope_segments e =
    aad_segments e.mailbox e.message_id e.expires_at_unix e.sender_ephemeral 24
      (length e.ciphertext.body)
    ++ (e.ciphertext.nonce ∷ e.ciphertext.body ∷ [])

pub envelope_nonce : (e : OuterEnvelope) → IsEnvelope e → length e.ciphertext.nonce ≡ 24
unfolding Suite.nonce_len
envelope_nonce e v = v.ciphertext_valid.nonce_fits ∙ ap Suite.nonce_len v.suite_fixed

envelope_parts :
    (e : OuterEnvelope)
    → concat (
        outer_aad e.mailbox e.message_id e.expires_at_unix e.sender_ephemeral
          (length e.ciphertext.body)
        ∷ e.ciphertext.nonce
        ∷ e.ciphertext.body
        ∷ [])
      ≡ concat (envelope_segments e)
unfolding concat
envelope_parts e = simp (append_assoc)

-- A valid envelope has an encoding, laid out in segments.
pub encode-eq_envelope :
    (e : OuterEnvelope) → IsEnvelope e → encode e ≡ ok (concat (envelope_segments e))
unfolding encode envelope_aad
encode-eq_envelope e v =
    let n = length e.ciphertext.body in
    let small = v.ciphertext_valid.body_high in
    let whole =
      outer_aad-eq e.mailbox e.message_id e.expires_at_unix e.sender_ephemeral n v.mailbox_len
        v.id_len v.sender_len (omega arith) in
    let size =
      length-outer_aad e.mailbox e.message_id e.expires_at_unix e.sender_ephemeral n v.mailbox_len
        v.id_len v.sender_len in
    let nonce_len = envelope_nonce e v in
    rw (whole, size, nonce_len, leb-true (122 + n) usize_max (omega arith))
      (ap ok (envelope_parts e))
