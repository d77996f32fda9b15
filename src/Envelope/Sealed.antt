-- ===== src/Envelope/Sealed.antt =====
-- envelope/outer.rs: `seal` at the sender followed by `open_inner` at the recipient.
use mef.Prelude.{
  ℕ, suc, zero, ◌+◌, ◌-◌, ◌≤◌, ◌≡◌, codes, some, refl, ap, ◌∙◌, true, false, not, ◌++◌, arith,
  Bytes, length, length-append, length-replicate, replicate, drop-append, take-length, leb-true,
  ltb-false, ◌==◌, u64_max, usize_max,
}
use mef.Error.{ok}
use mef.Limits.{max_ciphertext_len}
use mef.Wire.{slice}
use mef.Wire.Laws.{slice-eq}
use mef.Vec.{any}
use mef.Crypto.Suite
use mef.Crypto.Primitives.{Primitives, IsAead, IsKdf, IsDh, Granted}
use mef.Crypto.Aead.{Ciphertext, aead_tag_len, open_ciphertext}
use mef.Crypto.Kdf.{derive_secret, derive_aead_key, domain_label}
use mef.Crypto.Seal.{seal, fill_secure, random_bytes}
use mef.Crypto.Seal.Opens.{seal-Seals}
use mef.Keys.Dh.{DhSecretKey, diffie_hellman, generate, from_secret, public_key}
use mef.Frame.Format as Frame
use mef.Frame.Format.{InnerFrame, decode_prefix}
use mef.Frame.Valid.{IsFrame, encoded_len, encode-eq}
use mef.Frame.Seal.Opens.{Seals-IsCiphertext}
use mef.Frame.RoundTrip.{decode_prefix-encode}
use mef.Envelope.Capability.{generate_id}
use mef.Envelope.Outer.{
  OuterEnvelope, outer_label, outer_suite, open_envelope, open_inner, envelope_aad, encode_aad,
  from_ciphertext,
}
use mef.Envelope.Valid.{
  IsEnvelope, outer_aad, outer_aad-eq, length-outer_aad, from_ciphertext-eq_envelope,
}
use mef.Envelope.Deliver.{seal_envelope}

-- A key of 32 bytes from an agreement's 32 bytes.
derive_aead_key-eq :
    (p : Primitives) (salt input : Bytes)
    → IsKdf p
    → length input ≤ max_ciphertext_len
    → (key : Bytes) × (derive_aead_key p salt outer_label input ≡ ok key) × (length key ≡ 32)
unfolding derive_aead_key derive_secret
derive_aead_key-eq p salt input kdf h =
    let (key, made, key_len) = kdf.expands salt input (domain_label (codes "kdf") outer_label) in
    (key, rw (ltb-false max_ciphertext_len (length input) h, made) refl, key_len)

any-zeros : (n : ℕ) → any (λ byte. not (byte == 0)) (replicate n 0) ≡ false
unfolding any
any-zeros zero = refl
any-zeros (suc n) = any-zeros n

behind-slice : (xs ys : Bytes) → slice (length xs) (length (xs ++ ys)) (xs ++ ys) ≡ ok ys
behind-slice xs ys =
    let width : length (xs ++ ys) - length xs ≡ length ys = omega (arith, length-append xs ys) in
    slice-eq (length xs) (length (xs ++ ys)) (xs ++ ys) (omega (arith, length-append xs ys))
      (omega arith)
    ∙ rw (width, drop-append xs ys, take-length ys) refl

module _ (p : Primitives) (secret : DhSecretKey) (e : OuterEnvelope) (v : IsEnvelope e) (now : ℕ)
    (key : Bytes) (f : InnerFrame) (wire : Bytes) (padding : ℕ) where
  abbrev plaintext : Bytes
  plaintext = wire ++ replicate padding 0

  abbrev shared : Bytes
  shared = p.x25519 secret e.sender_ephemeral

  -- Opening an envelope whose ciphertext opens to an encoded frame and zeros.
  open_inner-eq :
      now ≤ e.expires_at_unix
      → p.was_contributory shared ≡ true
      → derive_aead_key p e.mailbox outer_label shared ≡ ok key
      → open_ciphertext p key e.ciphertext (
          outer_aad e.mailbox e.message_id e.expires_at_unix e.sender_ephemeral
            (length e.ciphertext.body))
        ≡ ok plaintext
      → decode_prefix plaintext ≡ ok (f, length wire)
      → open_inner p e secret now ≡ ok f
  unfolding open_inner open_envelope envelope_aad diffie_hellman
  open_inner-eq in_time contributes derived opened found =
      let small = v.ciphertext_valid.body_high in
      rw
        (
          ltb-false e.expires_at_unix now in_time,
          contributes,
          derived,
          outer_aad-eq e.mailbox e.message_id e.expires_at_unix e.sender_ephemeral
              (length e.ciphertext.body) v.mailbox_len v.id_len v.sender_len (omega arith),
          opened,
          found,
          behind-slice wire (replicate padding 0),
          any-zeros padding,
        )
        refl

-- The encoding of a frame, found again in front of zeros.
padded-eq :
    (f : InnerFrame) (padding : ℕ)
    → IsFrame f
    → encoded_len f + padding + aead_tag_len ≤ max_ciphertext_len
    → (wire : Bytes) × (Frame.encode f ≡ ok wire)
      × (length wire ≡ encoded_len f)
      × (decode_prefix (wire ++ replicate padding 0) ≡ ok (f, length wire))
      × (length (wire ++ replicate padding 0) ≡ length wire + padding)
padded-eq f padding valid fits =
    let zeros : Bytes = replicate padding 0 in
    let zeros_len = length-replicate {A = ℕ} padding 0 in
    let (wire, written, size, _) = encode-eq f valid in
    let (wire', written', found') = decode_prefix-encode f zeros valid (omega (arith, zeros_len)) in
    let same : wire' ≡ wire = cc in
    (
      wire,
      written,
      size,
      rw same at found',
      length-append wire zeros ∙ ap (λ (k : ℕ). length wire + k) zeros_len,
    )

-- Sealing, given what each of its steps gives.
seal_envelope-eq :
    (p : Primitives) (recipient mailbox : Bytes) (expires_at : ℕ) (f : InnerFrame) (padding g : ℕ)
    (seed id wire key aad : Bytes) (c : Ciphertext) (e : OuterEnvelope)
    → p.try_fill_bytes g 32 ≡ some seed
    → p.was_contributory (p.x25519 seed recipient) ≡ true
    → derive_aead_key p mailbox outer_label (p.x25519 seed recipient) ≡ ok key
    → p.try_fill_bytes (g + 1) 16 ≡ some id
    → Frame.encode f ≡ ok wire
    → length wire + padding + aead_tag_len ≤ max_ciphertext_len
    → encode_aad mailbox id expires_at (p.x25519_public seed) (length wire + padding + aead_tag_len)
      ≡ ok aad
    → seal p key outer_suite aad (wire ++ replicate padding 0) tt (g + 2) ≡ (ok c, tt, g + 2 + 1)
    → from_ciphertext mailbox id expires_at (p.x25519_public seed) c ≡ ok e
    → seal_envelope p recipient mailbox expires_at f padding tt g ≡ (ok e, tt, g + 3)
unfolding seal_envelope generate random_bytes fill_secure from_secret public_key generate_id
    diffie_hellman
seal_envelope-eq p recipient mailbox expires_at f padding g seed id wire key aad c e drawn
      contributes derived id_drawn written fits aad_made sealed built =
    let two : g + 1 + 1 ≡ g + 2 = omega arith in
    let three : g + 2 + 1 ≡ g + 3 = omega arith in
    rw
      (
        drawn,
        contributes,
        derived,
        id_drawn,
        written,
        leb-true (length wire + padding) usize_max (omega arith),
        ltb-false (max_ciphertext_len - aead_tag_len) (length wire + padding) (omega arith),
        leb-true (length wire + padding + aead_tag_len) usize_max (omega arith),
        aad_made,
        two,
        sealed,
        built,
        three,
      )
      refl

module _ (p : Primitives) (aead : IsAead p) (kdf : IsKdf p) (dh : IsDh p) (secret mailbox : Bytes)
    (expires_at now : ℕ) (f : InnerFrame) (padding g : ℕ) where
  -- An envelope that is sealed for a recipient opens at the recipient to the frame, until its
  -- expiry. The third-party laws hold; the frame is valid and fits with its padding and the tag;
  -- the mailbox has 32 bytes and the expiry 64 bits; the requests for the sender's key, the identifier and the nonce are
  -- granted, and the key contributes to the agreement.
  pub open_inner-seal_envelope :
      (sender : Granted p g 32)
      → Granted p (g + 1) 16
      → Granted p (g + 2) 24
      → p.was_contributory (p.x25519 sender.0 (p.x25519_public secret)) ≡ true
      → length mailbox ≡ 32
      → expires_at ≤ u64_max
      → now ≤ expires_at
      → IsFrame f
      → encoded_len f + padding + aead_tag_len ≤ max_ciphertext_len
      → (e : OuterEnvelope) × (seal_envelope p
            (p.x25519_public secret)
            mailbox
            expires_at
            f
            padding
            tt
            g
          ≡ (ok e, tt, g + 3))
        × (open_inner p e secret now ≡ ok f)
  unfolding Suite.nonce_len
  open_inner-seal_envelope (seed, drawn, seed_len) (id, id_drawn, id_len) nonce contributes
        mailbox_len expires_fits in_time valid fits =
      let shared' = p.x25519 seed (p.x25519_public secret) in
      let sender = p.x25519_public seed in
      let sender_len = dh.length-public seed in
      let (key, derived, key_len) =
        derive_aead_key-eq p mailbox shared' kdf
          (omega (arith, dh.length-x25519 seed (p.x25519_public secret))) in
      let zeros : Bytes = replicate padding 0 in
      let (wire, written, size, found, plain_len) = padded-eq f padding valid fits in
      let n = length wire + padding + aead_tag_len in
      let aad = outer_aad mailbox id expires_at sender n in
      let aad_made =
        outer_aad-eq mailbox id expires_at sender n mailbox_len id_len sender_len (omega arith) in
      let aad_len = length-outer_aad mailbox id expires_at sender n mailbox_len id_len sender_len in
      let (c, sealed, s) =
        seal-Seals p aead key key_len outer_suite aad (wire ++ zeros) (g + 2) nonce
          (omega (arith, aad_len)) (omega arith) in
      let cipher =
        Seals-IsCiphertext p aead key key_len outer_suite aad (wire ++ zeros) c s (omega arith) in
      let e : OuterEnvelope = record {
        mailbox = mailbox;
        message_id = id;
        expires_at_unix = expires_at;
        sender_ephemeral = sender;
        ciphertext = c;
      } in
      let v : IsEnvelope e = record {
        mailbox_len = mailbox_len;
        id_len = id_len;
        expires_fits = expires_fits;
        sender_len = sender_len;
        suite_fixed = s.suite_kept;
        ciphertext_valid = cipher;
      } in
      let body_size : length c.body ≡ n =
        s.body_fits ∙ ap (λ (k : ℕ). k + aead_tag_len) plain_len in
      let agreed : p.x25519 secret sender ≡ shared' = dh.agrees secret seed in
      (
        e,
        seal_envelope-eq p (p.x25519_public secret) mailbox expires_at f padding g seed id wire key
            aad c e drawn contributes derived id_drawn written (omega arith) aad_made sealed
            (from_ciphertext-eq_envelope e v),
        open_inner-eq p secret e v now key f wire padding in_time (rw agreed contributes)
            (rw agreed derived) (rw body_size s.opens) found,
      )
