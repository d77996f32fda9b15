-- ===== src/Frame/Valid.antt =====
-- frame/wire.rs: the frames that the types of the source allow, and the layout of `encode`.
use mef.Prelude.{
  ℕ, ◌+◌, ◌≤◌, ◌≡◌, ◌∙◌, List, [], ◌∷◌, ◌++◌, arith, Bytes, length, leb-true, length-to_be, u32_max,
  u8_max, append_assoc, append-nil,
}
use mef.Error.{ok}
use mef.Wire.{concat}
use mef.Wire.Laws.{length-concat}
use mef.Limits.{max_ciphertext_len}
use mef.Crypto.Suite
use mef.Crypto.Suite.{AeadSuite, aes256_gcm}
use mef.Crypto.Aead.{Ciphertext, from_parts, aead_tag_len}
use mef.Frame.Header.{FrameHeader}
use mef.Frame.Format.{
  InnerFrame, aad_segments, encode_aad, from_ciphertext, encode, fixed_header_len,
}

-- `[u8; 32]` and `u32` fields.
pub record IsHeader (h : FrameHeader) : Type 0 where
  pub session_len : length h.session_id ≡ 32
  pub ratchet_len : length h.ratchet_public ≡ 32
  pub previous_fits : h.previous_chain_len ≤ u32_max
  pub number_fits : h.message_number ≤ u32_max

-- What `Ciphertext::from_parts` lets through.
pub record IsCiphertext (c : Ciphertext) : Type 0 where
  pub nonce_fits : length c.nonce ≡ Suite.nonce_len c.suite
  pub body_low : aead_tag_len ≤ length c.body
  pub body_high : length c.body ≤ max_ciphertext_len

pub record IsFrame (f : InnerFrame) : Type 0 where
  pub header_valid : IsHeader f.header
  pub ciphertext_valid : IsCiphertext f.ciphertext

pub nonce_len-le : (suite : AeadSuite) → Suite.nonce_len suite ≤ 24
unfolding Suite.nonce_len
nonce_len-le aes256_gcm = omega arith
nonce_len-le _ = omega arith

abbrev pub aad : AeadSuite → FrameHeader → ℕ → Bytes
aad suite h n = concat (aad_segments suite h (Suite.nonce_len suite) n)

pub length-aad :
    (suite : AeadSuite) (h : FrameHeader) (n : ℕ)
    → IsHeader h
    → length (aad suite h n) ≡ fixed_header_len
length-aad suite h n v =
    length-concat (aad_segments suite h (Suite.nonce_len suite) n)
    ∙ omega (
      arith,
      v.session_len,
      v.ratchet_len,
      length-to_be 4 h.previous_chain_len,
      length-to_be 4 h.message_number,
      length-to_be 4 n,
    )

-- The associated data of a valid header is its segments, 83 bytes in all.
pub encode_aad-eq :
    (suite : AeadSuite) (h : FrameHeader) (n : ℕ)
    → IsHeader h
    → n ≤ u32_max
    → encode_aad suite h n ≡ ok (aad suite h n)
unfolding encode_aad
encode_aad-eq suite h n v fits = rw (
  leb-true n u32_max fits,
  leb-true (Suite.nonce_len suite) u8_max (omega (arith, nonce_len-le suite)),
  length-aad suite h n v,
)

pub from_parts-eq : (c : Ciphertext) → IsCiphertext c → from_parts c.suite c.nonce c.body ≡ ok c
unfolding from_parts
from_parts-eq c v = ground arith

pub from_ciphertext-eq :
    (h : FrameHeader) (c : Ciphertext)
    → IsHeader h
    → IsCiphertext c
    → from_ciphertext h c ≡ ok (record { header = h; ciphertext = c })
unfolding from_ciphertext
from_ciphertext-eq h c v w = rw (
  encode_aad-eq c.suite h (length c.body) v (omega arith),
  length-aad c.suite h (length c.body) v,
)

abbrev pub frame_segments : InnerFrame → Bytes → List Bytes
frame_segments f rest =
    aad_segments f.ciphertext.suite f.header (Suite.nonce_len f.ciphertext.suite)
      (length f.ciphertext.body)
    ++ (f.ciphertext.nonce ∷ f.ciphertext.body ∷ rest ∷ [])

abbrev pub encoded_len : InnerFrame → ℕ
encoded_len f = fixed_header_len + Suite.nonce_len f.ciphertext.suite + length f.ciphertext.body

abbrev frame_parts : InnerFrame → List Bytes
frame_parts f =
    aad f.ciphertext.suite f.header (length f.ciphertext.body)
    ∷ f.ciphertext.nonce
    ∷ f.ciphertext.body
    ∷ []

frame_parts-append :
    (f : InnerFrame) (rest : Bytes)
    → concat (frame_parts f) ++ rest ≡ concat (frame_segments f rest)
unfolding concat
frame_parts-append f rest = simp (append_assoc, append-nil)

-- A valid frame has an encoding; with bytes behind it, it is laid out in segments.
pub encode-eq :
    (f : InnerFrame)
    → IsFrame f
    → (wire : Bytes) × (encode f ≡ ok wire)
      × (length wire ≡ encoded_len f)
      × ((rest : Bytes) → wire ++ rest ≡ concat (frame_segments f rest))
unfolding encode
encode-eq f v =
    let c = f.ciphertext in
    let whole = encode_aad-eq c.suite f.header (length c.body) v.header_valid (omega arith) in
    let size = length-aad c.suite f.header (length c.body) v.header_valid in
    (
      concat (frame_parts f),
      rw (whole, size) (ground (arith, nonce_len-le c.suite)),
      length-concat (frame_parts f) ∙ omega (arith, size),
      frame_parts-append f,
    )
