-- ===== src/Ratchet/Persistence/Untrusted.antt =====
-- ratchet/persistence.rs: `decode_state` on arbitrary bytes.
use mef.Prelude.{
  ℕ, zero, suc, ◌+◌, ◌*◌, ◌^◌, ◌≤◌, ◌<◌, ◌≡◌, ◌≢◌, refl, true, false, not, ◌==◌, ==_refl, List, [],
  ◌∷◌, ◌++◌, arith, Bytes, IsByte, All, All-append, All-take, All-drop, length, length-append,
  length-take, length-drop, take, drop, ltb, from_be, from_be-lt, bytes_eq_refl, leb-true, u64_max,
  usize_max, Bool-cases, inl, inr,
}
use mef.Error.{Ensures, Ensures-bind, Ensures-guard, invalid_frame, invalid_state}
use mef.Limits.{max_skipped_keys}
use mef.Vec.{any}
use mef.Wire.Laws.{index-eq, copy_at-eq}
use mef.Crypto.Suite
use mef.Crypto.Suite.{AeadSuite}
use mef.Crypto.Primitives.{Primitives}
use mef.Keys.Dh.{from_secret}
use mef.Handshake.Verified.{same_byte}
use mef.Ratchet.State.{RatchetState, SkippedMessageKey}
use mef.Ratchet.Decrypt.{is_entry}
use mef.Ratchet.Skipped.{Distinct}
use mef.Ratchet.Persistence.Entries.{IsEntry}
use mef.Ratchet.Persistence.Layout.{IsStored}
use mef.Ratchet.Persistence.Codec.{
  legacy_version, decode_entries, fixed_len_of, suite_and_offset, decode_state,
}

is_entry_refl :
    (e x : SkippedMessageKey)
    → is_entry e.remote_dh e.message_number x ≡ false
    → e.remote_dh ≡ x.remote_dh
    → e.message_number ≢ x.message_number
is_entry_refl e x miss same numbered =
    let hit : is_entry e.remote_dh e.message_number x ≡ true =
      rw (same, numbered, bytes_eq_refl x.remote_dh, ==_refl x.message_number) refl in
    cc

-- A key that the search does not find may stand behind the others.
Distinct-snoc :
    (es : List SkippedMessageKey) (e : SkippedMessageKey)
    → Distinct es
    → any (is_entry e.remote_dh e.message_number) es ≡ false
    → Distinct (es ++ e ∷ [])
unfolding any
Distinct-snoc [] e d h = (tt, tt)
Distinct-snoc (x ∷ es) e d h = elim (Bool-cases (is_entry e.remote_dh e.message_number x)) [
  | inl hit ↦ let found = rw hit at h in cc
  | inr miss ↦
      let rest : any (is_entry e.remote_dh e.message_number) es ≡ false = rw miss at h in
      (All-append _ es (e ∷ []) d.0 (is_entry_refl e x miss, tt), Distinct-snoc es e d.1 rest)
]

long_enough : (n m : ℕ) → ltb n m ≡ false → m ≤ n
long_enough n m h = ground arith

-- Keys within their widths, none twice.
abbrev AreEntries : ℕ → List SkippedMessageKey → Type 0
AreEntries n es = All IsEntry es × Distinct es × (length es ≡ n)

module _ (bytes : Bytes) (v : All IsByte bytes) where
  abbrev part : ℕ → ℕ → Bytes
  part a n = take n (drop a bytes)

  part-IsByte : (a n : ℕ) → All IsByte (part a n)
  part-IsByte a n = All-take IsByte n (drop a bytes) (All-drop IsByte a bytes v)

  length-part : (a n : ℕ) → a + n ≤ length bytes → length (part a n) ≡ n
  length-part a n h = length-take n (drop a bytes) (omega (arith, length-drop a bytes))

  word-lt : (a : ℕ) → a + 4 ≤ length bytes → from_be (part a 4) < 2 ^ 32
  word-lt a h = from_be-lt 4 (part a 4) (part-IsByte a 4) (length-part a 4 h)

  decode_entries-Ensures :
      (fixed_len i : ℕ) (done : List SkippedMessageKey) (rounds n : ℕ)
      → fixed_len + (i + rounds) * 68 ≤ length bytes
      → i + rounds ≤ max_skipped_keys
      → length done + rounds ≡ n
      → All IsEntry done
      → Distinct done
      → Ensures (AreEntries n) (decode_entries bytes fixed_len i done rounds)
  unfolding decode_entries
  decode_entries-Ensures fixed_len i done zero n within few count valid distinct =
      (valid, distinct, omega arith)
  decode_entries-Ensures fixed_len i done (suc rounds) n within few count valid distinct =
      let offset = fixed_len + i * 68 in
      let remote = part offset 32 in
      let number = from_be (part (offset + 32) 4) in
      let e : SkippedMessageKey = record {
        remote_dh = remote;
        message_number = number;
        key = part (offset + 36) 32;
      } in
      let entry : IsEntry e = record {
        remote_len = length-part offset 32 (omega arith);
        number_fits = omega (arith, word-lt (offset + 32) (omega arith));
        key_len = length-part (offset + 36) 32 (omega arith);
      } in
      rw
        (
          leb-true (i * 68) usize_max (omega arith),
          copy_at-eq offset 32 bytes (omega arith),
          copy_at-eq (offset + 32) 4 bytes (omega arith),
          copy_at-eq (offset + 36) 32 bytes (omega arith),
        )
        (Ensures-guard (AreEntries n) (any (is_entry remote number) done) invalid_state _ λ fresh.
          decode_entries-Ensures fixed_len (i + 1) (done ++ e ∷ []) rounds n (omega arith)
            (omega arith) (omega (arith, length-append done (e ∷ [])))
            (All-append IsEntry done (e ∷ []) valid (entry, tt))
            (Distinct-snoc done e distinct fresh))

  -- The length of the fixed part, which the version gives.
  abbrev IsFixed : ℕ → ℕ → Type 0
  IsFixed version n = (206 ≤ n) × (n ≤ 207) × ((version == legacy_version) ≡ false → n ≡ 207)

  fixed_len_of-Ensures : (version : ℕ) → Ensures (IsFixed version) (fixed_len_of version)
  unfolding fixed_len_of
  fixed_len_of-Ensures version = elim (Bool-cases (version == legacy_version)) [
    | inl legacy ↦ rw legacy (omega arith, omega arith, λ h. cc)
    | inr other ↦ elim (Bool-cases (version == 2)) [
      | inl latest ↦ rw (other, latest) (omega arith, omega arith, λ h. refl)
      | inr unknown ↦ rw (other, unknown) tt
    ]
  ]

  suite_and_offset-Ensures :
      (version n : ℕ)
      → IsFixed version n
      → n ≤ length bytes
      → Ensures (λ found. found.1 + 2 ≤ n) (suite_and_offset bytes version)
  unfolding suite_and_offset
  suite_and_offset-Ensures version n (low, high, latest) within =
      elim (Bool-cases (version == legacy_version)) [
        | inl legacy ↦ rw legacy low
        | inr other ↦
            let now = latest other in
            let (byte, read, _) = index-eq 204 bytes (omega arith) in
            rw (other, read)
              (Ensures-bind (λ suite. Suite.id suite ≡ byte) (λ found. found.1 + 2 ≤ n) _ _
                (Suite.from_id-Ensures byte) λ suite same. omega arith)
      ]

  module _ (p : Primitives) (generation : ℕ) (fits : generation ≤ u64_max) where
    -- A valid session of the generation.
    abbrev pub Restores : RatchetState → Type 0
    Restores s = IsStored p s × (s.generation ≡ generation)

    -- The session that the parser builds from its reads.
    abbrev parsed : AeadSuite → List SkippedMessageKey → RatchetState
    parsed suite skipped = record {
      session_id = part 0 32;
      root_key = part 32 32;
      sending_chain = part 64 32;
      receiving_chain = part 96 32;
      dh_pair = from_secret p (part 128 32);
      remote_dh = part 160 32;
      previous_sending_chain_len = from_be (part 192 4);
      sending_count = from_be (part 196 4);
      receiving_count = from_be (part 200 4);
      generation = generation;
      suite = suite;
      skipped = skipped;
    }

    parsed-IsStored :
        (suite : AeadSuite) (skipped : List SkippedMessageKey) (n : ℕ)
        → 206 ≤ length bytes
        → n ≤ max_skipped_keys
        → AreEntries n skipped
        → Restores (parsed suite skipped)
    unfolding from_secret
    parsed-IsStored suite skipped n long few (valid, distinct, count) = (
      record {
        session_len = length-part 0 32 (omega arith);
        root_len = length-part 32 32 (omega arith);
        sending_len = length-part 64 32 (omega arith);
        receiving_len = length-part 96 32 (omega arith);
        secret_len = length-part 128 32 (omega arith);
        remote_len = length-part 160 32 (omega arith);
        paired = refl;
        bounded = record {
          skipped_bounded = omega arith;
          previous_fits = omega (arith, word-lt 192 (omega arith));
          sending_fits = omega (arith, word-lt 196 (omega arith));
          receiving_fits = omega (arith, word-lt 200 (omega arith));
          generation_fits = fits;
        };
        entries_valid = valid;
        distinct = distinct;
      },
      refl,
    )

    pub decode_state-Ensures :
        (version : ℕ) → Ensures Restores (decode_state p bytes generation version)
    unfolding decode_state
    decode_state-Ensures version =
        Ensures-bind (IsFixed version) Restores _ _ (fixed_len_of-Ensures version) λ n fixed.
          Ensures-guard Restores (ltb (length bytes) n) invalid_frame _ λ enough.
            let long = long_enough (length bytes) n enough in
            Ensures-bind (λ found. found.1 + 2 ≤ n) Restores _ _
              (suite_and_offset-Ensures version n fixed long)
              λ found within.
                let count = from_be (part found.1 2) in
                rw (copy_at-eq found.1 2 bytes (omega arith)) (
                  Ensures-guard Restores (ltb max_skipped_keys count) invalid_state _ λ bounded.
                    let few = long_enough max_skipped_keys count bounded in
                    rw
                      (
                        leb-true (count * 68) usize_max (omega arith),
                        leb-true (n + count * 68) usize_max (omega arith),
                      )
                      (Ensures-guard Restores (not (length bytes == n + count * 68)) invalid_frame _
                        λ sized.
                          let whole = same_byte (length bytes) (n + count * 68) sized in
                          rw
                            (
                              copy_at-eq 0 32 bytes (omega arith),
                              copy_at-eq 32 32 bytes (omega arith),
                              copy_at-eq 64 32 bytes (omega arith),
                              copy_at-eq 96 32 bytes (omega arith),
                              copy_at-eq 128 32 bytes (omega arith),
                              copy_at-eq 160 32 bytes (omega arith),
                              copy_at-eq 192 4 bytes (omega arith),
                              copy_at-eq 196 4 bytes (omega arith),
                              copy_at-eq 200 4 bytes (omega arith),
                              ==_refl count,
                            )
                            (Ensures-bind (AreEntries count) Restores _ _
                              (decode_entries-Ensures n 0 [] count count (omega arith) (omega arith)
                                (omega arith) tt tt)
                              λ skipped read.
                                parsed-IsStored found.0 skipped count (omega arith) few read)))
