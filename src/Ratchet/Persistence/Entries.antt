-- ===== src/Ratchet/Persistence/Entries.antt =====
-- ratchet/persistence.rs: the list of skipped keys through its encoding.
use mef.Prelude.{
  ℕ, ◌+◌, ◌*◌, ◌≤◌, ◌≡◌, ◌≢◌, refl, sym, ap, ◌∙◌, inl, inr, false, List, [], ◌∷◌, ◌++◌,
  append_assoc, append-nil, arith, Bytes, All, length, to_be, from_be-to_be, length-to_be, leb-true,
  u32_max, usize_max, Bool-cases,
}
use mef.Error.{ok}
use mef.Wire.{concat, copy_at, total}
use mef.Wire.Laws.{copy_at-segment, concat-regroup, total-append}
use mef.Limits.{max_skipped_keys}
use mef.Vec.{any}
use mef.Ratchet.State.{SkippedMessageKey}
use mef.Ratchet.Decrypt.{is_entry}
use mef.Ratchet.Skipped.{Distinct, is_entry_sound}
use mef.Ratchet.Persistence.Codec.{entry_segments, decode_entries}

pub record IsEntry (e : SkippedMessageKey) : Type 0 where
  pub remote_len : length e.remote_dh ≡ 32
  pub number_fits : e.message_number ≤ u32_max
  pub key_len : length e.key ≡ 32

All-middle {ℓ κ} :
    {A : Type ℓ} (P : A → Type κ) (xs : List A) (x : A) (ys : List A) → All P (xs ++ x ∷ ys) → P x
All-middle P [] x ys h = h.0
All-middle P (y ∷ xs) x ys h = All-middle P xs x ys h.1

-- No entry in front of another is of the same number and key.
any-Distinct :
    (es : List SkippedMessageKey) (e : SkippedMessageKey) (rest : List SkippedMessageKey)
    → Distinct (es ++ e ∷ rest)
    → any (is_entry e.remote_dh e.message_number) es ≡ false
unfolding any
any-Distinct [] e rest d = refl
any-Distinct (x ∷ es) e rest d = elim (Bool-cases (is_entry e.remote_dh e.message_number x)) [
  | inl hit ↦
      let (same, numbered) = is_entry_sound e.remote_dh e.message_number x hit in
      absurd (
        All-middle (λ y. y.remote_dh ≡ x.remote_dh → y.message_number ≢ x.message_number) es e rest
          d.0 (sym same) (sym numbered))
  | inr miss ↦ rw miss (any-Distinct es e rest d.1)
]

pub decode_entries-segments :
    (bytes : Bytes) (i : ℕ) (pre : List Bytes) (done entries : List SkippedMessageKey)
    → bytes ≡ concat (pre ++ entry_segments entries)
    → total pre ≡ 207 + i * 68
    → i + length entries ≤ max_skipped_keys
    → All IsEntry entries
    → Distinct (done ++ entries)
    → decode_entries bytes 207 i done (length entries) ≡ ok (done ++ entries)
unfolding decode_entries entry_segments
decode_entries-segments bytes i pre done [] layout at few v d = rw append-nil
decode_entries-segments bytes i pre done (e ∷ entries) layout at few (v, vs) d =
    let number = to_be 4 e.message_number in
    let rest = entry_segments entries in
    let n4 = length-to_be 4 e.message_number in
    let read_remote : copy_at (207 + i * 68) 32 bytes ≡ ok e.remote_dh =
      rw layout (
        copy_at-segment pre e.remote_dh (number ∷ e.key ∷ rest) (207 + i * 68) 32 at
          v.remote_len) in
    let read_number : copy_at (207 + i * 68 + 32) 4 bytes ≡ ok number =
      rw (concat-regroup bytes pre (e.remote_dh ∷ []) (number ∷ e.key ∷ rest) layout) (
        copy_at-segment (pre ++ e.remote_dh ∷ []) number (e.key ∷ rest) (207 + i * 68 + 32) 4
          (omega (arith, v.remote_len, total-append pre (e.remote_dh ∷ []))) n4) in
    let read_key : copy_at (207 + i * 68 + 36) 32 bytes ≡ ok e.key =
      rw (concat-regroup bytes pre (e.remote_dh ∷ number ∷ []) (e.key ∷ rest) layout) (
        copy_at-segment (pre ++ e.remote_dh ∷ number ∷ []) e.key rest (207 + i * 68 + 36) 32
          (omega (arith, v.remote_len, n4, total-append pre (e.remote_dh ∷ number ∷ [])))
          v.key_len) in
    let pre' = pre ++ e.remote_dh ∷ number ∷ e.key ∷ [] in
    let ih =
      decode_entries-segments bytes (i + 1) pre' (done ++ e ∷ []) entries
        (concat-regroup bytes pre (e.remote_dh ∷ number ∷ e.key ∷ []) rest layout)
        (omega (
          arith,
          v.remote_len,
          v.key_len,
          n4,
          total-append pre (e.remote_dh ∷ number ∷ e.key ∷ []),
        ))
        (omega arith) vs (rw append_assoc d) in
    rw
      (
        leb-true (i * 68) usize_max (omega arith),
        read_remote,
        read_number,
        from_be-to_be 4 e.message_number (omega arith),
        any-Distinct done e entries d,
        read_key,
      )
      (ih ∙ ap ok (append_assoc done (e ∷ []) entries))
