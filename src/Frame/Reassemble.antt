-- ===== src/Frame/Reassemble.antt =====
-- frame/wire.rs: the frame that the parser builds from its reads, encoded again.
use mef.Prelude.{
  ℕ, ◌+◌, ◌≤◌, ◌≡◌, ap, ◌∙◌, List, [], ◌∷◌, ◌++◌, arith, Bytes, IsByte, All, All-take, All-drop,
  length, length-take, length-drop, take, drop, from_be, to_be-from_be, from_be-lt,
}
use mef.Error.{ok}
use mef.Wire.{split_from}
use mef.Wire.Laws.{concat-split_all, take-of_append}
use mef.Limits.{max_ciphertext_len}
use mef.Crypto.Suite
use mef.Crypto.Suite.{AeadSuite}
use mef.Crypto.Aead.{aead_tag_len}
use mef.Frame.Header.{FrameKind, kind_id}
use mef.Frame.Format.{InnerFrame, magic, version, encode}
use mef.Frame.Valid.{IsFrame, frame_segments, encode-eq}

-- `f` is a valid frame whose encoding is the first `n` bytes.
abbrev pub Encodes : Bytes → InnerFrame × ℕ → Type 0
Encodes bytes (f, n) = IsFrame f × (n ≤ length bytes) × (encode f ≡ ok (take n bytes))

module _ (bytes : Bytes) (v : All IsByte bytes) (suite : AeadSuite) (kind : FrameKind)
    (body_len : ℕ) where
  -- The frame that the parser builds from its reads.
  abbrev pub parsed : InnerFrame
  parsed = record {
    header = record {
      kind = kind;
      session_id = take 32 (drop 6 bytes);
      ratchet_public = take 32 (drop 38 bytes);
      previous_chain_len = from_be (take 4 (drop 70 bytes));
      message_number = from_be (take 4 (drop 74 bytes));
    };
    ciphertext = record {
      suite = suite;
      nonce = take (Suite.nonce_len suite) (drop 83 bytes);
      body = take body_len (drop (83 + Suite.nonce_len suite) bytes);
    };
  }

  module _ (fits : 83 + Suite.nonce_len suite + body_len ≤ length bytes)
      (lo : aead_tag_len ≤ body_len) (hi : body_len ≤ max_ciphertext_len) where
    length-part : (a n : ℕ) → a + n ≤ length bytes → length (take n (drop a bytes)) ≡ n
    length-part a n h = length-take n (drop a bytes) (omega (arith, length-drop a bytes))

    part-IsByte : (a n : ℕ) → All IsByte (take n (drop a bytes))
    part-IsByte a n = All-take IsByte n (drop a bytes) (All-drop IsByte a bytes v)

    parsed-IsFrame : IsFrame parsed
    parsed-IsFrame = record {
      header_valid = record {
        session_len = length-part 6 32 (omega arith);
        ratchet_len = length-part 38 32 (omega arith);
        previous_fits =
            omega (arith, from_be-lt 4 _ (part-IsByte 70 4) (length-part 70 4 (omega arith)));
        number_fits =
            omega (arith, from_be-lt 4 _ (part-IsByte 74 4) (length-part 74 4 (omega arith)));
      };
      ciphertext_valid = record {
        nonce_fits = length-part 83 (Suite.nonce_len suite) (omega arith);
        body_low = rw (length-part (83 + Suite.nonce_len suite) body_len fits) lo;
        body_high = rw (length-part (83 + Suite.nonce_len suite) body_len fits) hi;
      };
    }

    widths : List ℕ
    widths = 3 ∷ 1 ∷ 1 ∷ 1 ∷ 32 ∷ 32 ∷ 4 ∷ 4 ∷ 1 ∷ 4 ∷ Suite.nonce_len suite ∷ body_len ∷ []

    module _ (e0 : take 3 (drop 0 bytes) ≡ magic) (e3 : take 1 (drop 3 bytes) ≡ version ∷ [])
        (e4 : take 1 (drop 4 bytes) ≡ Suite.id suite ∷ [])
        (e5 : take 1 (drop 5 bytes) ≡ kind_id kind ∷ [])
        (e78 : take 1 (drop 78 bytes) ≡ Suite.nonce_len suite ∷ [])
        (e79 : from_be (take 4 (drop 79 bytes)) ≡ body_len) where
      segments-split :
          (rest : Bytes) → frame_segments parsed rest ≡ split_from 0 widths bytes ++ rest ∷ []
      unfolding split_from widths
      segments-split rest = cc (
        length-part (83 + Suite.nonce_len suite) body_len fits,
        to_be-from_be 4 _ (part-IsByte 70 4) (length-part 70 4 (omega arith)),
        to_be-from_be 4 _ (part-IsByte 74 4) (length-part 74 4 (omega arith)),
        to_be-from_be 4 _ (part-IsByte 79 4) (length-part 79 4 (omega arith)),
      )

      pub parsed-Encodes : Encodes bytes (parsed, 83 + Suite.nonce_len suite + body_len)
      unfolding widths
      parsed-Encodes =
          let n = 83 + Suite.nonce_len suite + body_len in
          let (wire, written, size, whole) = encode-eq parsed parsed-IsFrame in
          let same : wire ++ drop n bytes ≡ bytes =
            whole (drop n bytes)
            ∙ rw (segments-split (drop n bytes)) (concat-split_all widths n bytes (omega arith)) in
          let len : length wire ≡ n =
            size
            ∙ ap (λ (k : ℕ). 83 + Suite.nonce_len suite + k)
                (length-part (83 + Suite.nonce_len suite) body_len fits) in
          (
            parsed-IsFrame,
            fits,
            written ∙ ap ok (take-of_append n wire (drop n bytes) bytes same len),
          )
