-- ===== src/Frame/Canonical.antt =====
-- frame/wire.rs: `decode_prefix` and `decode` on arbitrary bytes.
use mef.Prelude.{
  ℕ, ◌+◌, ◌≤◌, ◌<◌, ◌≡◌, refl, ap, ◌∙◌, Bool, true, false, not, ◌||◌, [], ◌∷◌, arith, Bytes, IsByte,
  All, All-take, All-drop, length, length-take, length-drop, take, drop, ltb, ◌==◌, from_be,
  from_be-lt, bytes_eq, bytes_eq_sound, Bool-cases, inl, inr, take-length, leb-true, ltb-false,
  usize_max, ◌^◌,
}
use mef.Error.{ok, err, Ensures, Ensures-bind, Ensures-guard, invalid_frame}
use mef.Wire.{index}
use mef.Wire.Laws.{index-eq, copy_at-eq, slice-eq, slice-eq_width}
use mef.Limits.{max_ciphertext_len}
use mef.Crypto.Aead.{body_len_fits, aead_tag_len}
use mef.Crypto.Suite
use mef.Crypto.Suite.{AeadSuite}
use mef.Frame.Header.{FrameKind, FrameKind, kind_id, kind_from_id-Ensures}
use mef.Frame.Format.{fixed_header_len, magic, version, encode, decode_prefix, decode}
use mef.Frame.Reassemble.{Encodes, parsed, parsed-Encodes}
use mef.Frame.Valid.{IsFrame, nonce_len-le, from_parts-eq, from_ciphertext-eq}

named_facts :
    (found : Bytes) (b : ℕ)
    → (not (bytes_eq found magic) || not (b == version)) ≡ false
    → (found ≡ magic) × (b ≡ version)
named_facts found b h = ground (arith, bytes_eq_sound found magic)

sized_facts :
    (nonce_len wanted body_len : ℕ)
    → (not (nonce_len == wanted) || not (body_len_fits body_len)) ≡ false
    → (nonce_len ≡ wanted) × (aead_tag_len ≤ body_len) × (body_len ≤ max_ciphertext_len)
sized_facts nonce_len wanted body_len h = ground arith

whole_take : (n : ℕ) (bytes : Bytes) → not (n == length bytes) ≡ false → take n bytes ≡ bytes
whole_take n bytes h = let same : n ≡ length bytes = ground arith in rw same (take-length bytes)

-- The first test of the parser.
abbrev outside : Bytes → Bool
outside bytes =
    ltb (length bytes) fixed_header_len
    || ltb (max_ciphertext_len + (fixed_header_len + 24)) (length bytes)

window_facts :
    (n : ℕ)
    → (ltb n fixed_header_len || ltb (max_ciphertext_len + (fixed_header_len + 24)) n) ≡ false
    → (fixed_header_len ≤ n) × (n ≤ max_ciphertext_len + (fixed_header_len + 24))
window_facts n h = ground arith

outside-decode_prefix :
    (bytes : Bytes) → outside bytes ≡ true → decode_prefix bytes ≡ err invalid_frame
unfolding decode_prefix
outside-decode_prefix bytes h = rw h

long_enough : (n m : ℕ) → ltb n m ≡ false → m ≤ n
long_enough n m h = ground arith

-- For bytes within the parser's window, and the four single bytes that it reads.
module _ (bytes : Bytes) (v : All IsByte bytes) (lo : fixed_header_len ≤ length bytes)
    (hi : length bytes ≤ max_ciphertext_len + (fixed_header_len + 24)) (b3 b4 b5 b78 : ℕ)
    (e3 : index 3 bytes ≡ ok b3) (s3 : take 1 (drop 3 bytes) ≡ b3 ∷ []) (e4 : index 4 bytes ≡ ok b4)
    (s4 : take 1 (drop 4 bytes) ≡ b4 ∷ []) (e5 : index 5 bytes ≡ ok b5)
    (s5 : take 1 (drop 5 bytes) ≡ b5 ∷ []) (e78 : index 78 bytes ≡ ok b78)
    (s78 : take 1 (drop 78 bytes) ≡ b78 ∷ []) where
  abbrev body_len : ℕ
  body_len = from_be (take 4 (drop 79 bytes))

  small_len : body_len < 2 ^ 32
  small_len =
      from_be-lt 4 (take 4 (drop 79 bytes))
        (All-take IsByte 4 (drop 79 bytes) (All-drop IsByte 79 bytes v))
        (length-take 4 (drop 79 bytes) (omega (arith, length-drop 79 bytes)))

  -- The frame is built once the tests are passed.
  build :
      (suite : AeadSuite) (kind : FrameKind)
      → take 3 bytes ≡ magic
      → b3 ≡ version
      → Suite.id suite ≡ b4
      → kind_id kind ≡ b5
      → b78 ≡ Suite.nonce_len suite
      → aead_tag_len ≤ body_len
      → body_len ≤ max_ciphertext_len
      → fixed_header_len + Suite.nonce_len suite + body_len ≤ length bytes
      → Encodes bytes
          (parsed bytes v suite kind body_len, fixed_header_len + Suite.nonce_len suite + body_len)
  build suite kind m v3 v4 v5 v78 low high fits =
      parsed-Encodes bytes v suite kind body_len fits low high m (s3 ∙ ap (λ (b : ℕ). b ∷ []) v3)
        (rw v4 s4) (rw v5 s5) (s78 ∙ ap (λ (b : ℕ). b ∷ []) v78) refl

  decode_prefix-Ensures_window : Ensures (Encodes bytes) (decode_prefix bytes)
  unfolding decode_prefix
  decode_prefix-Ensures_window =
      rw
        (
          ltb-false (length bytes) fixed_header_len lo,
          ltb-false (max_ciphertext_len + (fixed_header_len + 24)) (length bytes) hi,
          slice-eq 0 3 bytes (omega arith) (omega arith),
          e3,
          e4,
          e5,
          e78,
          copy_at-eq 6 32 bytes (omega arith),
          copy_at-eq 38 32 bytes (omega arith),
          copy_at-eq 70 4 bytes (omega arith),
          copy_at-eq 74 4 bytes (omega arith),
          copy_at-eq 79 4 bytes (omega arith),
          leb-true (from_be (take 4 (drop 79 bytes))) usize_max (omega (arith, small_len)),
        )
        (Ensures-guard (Encodes bytes) (not (bytes_eq (take 3 bytes) magic) || not (b3 == version))
          invalid_frame _
          λ named.
            Ensures-bind (λ suite. Suite.id suite ≡ b4) (Encodes bytes) _ _
              (Suite.from_id-Ensures b4)
              λ suite suite_read.
                Ensures-bind (λ kind. kind_id kind ≡ b5) (Encodes bytes) _ _
                  (kind_from_id-Ensures b5)
                  λ kind kind_read.
                    Ensures-guard (Encodes bytes)
                      (not (b78 == Suite.nonce_len suite) || not (body_len_fits body_len))
                      invalid_frame _
                      λ sized.
                        let (nonce_read, low, high) =
                          sized_facts b78 (Suite.nonce_len suite) body_len sized in
                        let n = fixed_header_len + Suite.nonce_len suite in
                        let small = nonce_len-le suite in
                        rw
                          (
                            nonce_read,
                            leb-true n usize_max (omega arith),
                            leb-true (n + body_len) usize_max (omega arith),
                          )
                          (Ensures-guard (Encodes bytes) (ltb (length bytes) (n + body_len))
                            invalid_frame _
                            λ long.
                              let (m, v3) = named_facts (take 3 bytes) b3 named in
                              let fits = long_enough (length bytes) (n + body_len) long in
                              let built =
                                build suite kind m v3 suite_read kind_read nonce_read low high
                                  fits in
                              let frame = parsed bytes v suite kind body_len in
                              rw
                                (
                                  slice-eq_width fixed_header_len (Suite.nonce_len suite) bytes
                                      (omega arith),
                                  slice-eq_width n body_len bytes fits,
                                  from_parts-eq frame.ciphertext built.0.ciphertext_valid,
                                  from_ciphertext-eq frame.header frame.ciphertext
                                      built.0.header_valid built.0.ciphertext_valid,
                                )
                                built))

-- On any bytes the parser of a prefix ends without reading out of bounds; if it accepts, it returns
-- a valid frame and a length within the bytes, and the bytes up to that length are the encoding of
-- the frame.
pub decode_prefix-Ensures :
    (bytes : Bytes) → All IsByte bytes → Ensures (Encodes bytes) (decode_prefix bytes)
decode_prefix-Ensures bytes v = elim (Bool-cases (outside bytes)) [
  | inl out ↦ rw (outside-decode_prefix bytes out) tt
  | inr within ↦
      let (lo, hi) = window_facts (length bytes) within in
      let (b3, e3, s3) = index-eq 3 bytes (omega arith) in
      let (b4, e4, s4) = index-eq 4 bytes (omega arith) in
      let (b5, e5, s5) = index-eq 5 bytes (omega arith) in
      let (b78, e78, s78) = index-eq 78 bytes (omega arith) in
      decode_prefix-Ensures_window bytes v lo hi b3 b4 b5 b78 e3 s3 e4 s4 e5 s5 e78 s78
]

-- On any bytes the parser of a whole frame ends without reading out of bounds; if it accepts, it
-- returns a valid frame, and the bytes are the encoding of it.
pub decode-Ensures :
    (bytes : Bytes)
    → All IsByte bytes
    → Ensures (λ f. IsFrame f × (encode f ≡ ok bytes)) (decode bytes)
unfolding decode
decode-Ensures bytes v =
    Ensures-bind (Encodes bytes) (λ f. IsFrame f × (encode f ≡ ok bytes)) (decode_prefix bytes) _
      (decode_prefix-Ensures bytes v)
      λ (f, n) (valid, within, written).
        Ensures-guard (λ f. IsFrame f × (encode f ≡ ok bytes)) (not (n == length bytes))
          invalid_frame _ λ whole. (valid, written ∙ ap ok (whole_take n bytes whole))
