-- ===== src/Ratchet/Late.antt =====
-- ratchet/state.rs: `decrypt` on a frame whose key was set aside.
use mef.Prelude.{
  ℕ, ◌<◌, ◌≡◌, ◌≢◌, refl, sym, ◌∙◌, inl, inr, Bool, true, none, ◌&&◌, List, ◌∷◌, arith, Bytes, All,
  ltb-true, ==_refl, bytes_eq, bytes_eq_refl, ◌==◌,
}
use mef.Error.{ok}
use mef.Crypto.Suite
use mef.Crypto.Primitives.{Primitives}
use mef.Frame.Format.{InnerFrame, open_frame}
use mef.Vec.{position, Picks, here, there}
use mef.Vec.Laws.{position-cases, Picks-test, All-Picks_elem}
use mef.Ratchet.State.{RatchetState, SkippedMessageKey, next_generation}
use mef.Ratchet.Decrypt.{is_entry, decrypt, decrypt_same_ratchet, decrypt_skipped}
use mef.Ratchet.Skipped.{Distinct, is_entry_sound}
use mef.Ratchet.Receive.{IsOrdered}

entry_hit :
    (remote remote' : Bytes) (n n' : ℕ)
    → remote ≡ remote'
    → n ≡ n'
    → (bytes_eq remote remote' && n == n') ≡ true
entry_hit remote remote' n n' same number =
    rw (same, number, bytes_eq_refl remote', ==_refl n') refl

pub data In (e : SkippedMessageKey) : List SkippedMessageKey → Type 0 where
  first : {es : List SkippedMessageKey} → In e (e ∷ es)
  later : {x : SkippedMessageKey} {es : List SkippedMessageKey} → In e es → In e (x ∷ es)

In-All :
    (P : SkippedMessageKey → Type 0) {e : SkippedMessageKey} {es : List SkippedMessageKey}
    → In e es
    → All P es
    → P e
In-All P first h = h.0
In-All P (later m) h = In-All P m h.1

In-position :
    (test : SkippedMessageKey → Bool) {e : SkippedMessageKey} {es : List SkippedMessageKey}
    → In e es
    → test e ≡ true
    → position test es ≢ none
unfolding position
In-position test first hit missing = ground (arith, missing)
In-position test (later {x = x} {es = es} m) hit missing =
    In-position test m hit (ground (arith, missing))

-- Where no number of a remote key stands twice, what is found is what is meant.
Picks-unique :
    {test : SkippedMessageKey → Bool} {e x : SkippedMessageKey} {es rest : List SkippedMessageKey}
    → Picks test es x rest
    → In e es
    → Distinct es
    → e.remote_dh ≡ x.remote_dh
    → e.message_number ≡ x.message_number
    → x ≡ e
Picks-unique (here hit) first d same number = refl
Picks-unique {x = x} (here hit) (later m) d same number = absurd (
    In-All (λ y. y.remote_dh ≡ x.remote_dh → y.message_number ≢ x.message_number) m d.0 same number)
Picks-unique {e = e} (there miss p) first d same number = absurd (
    All-Picks_elem (λ y. y.remote_dh ≡ e.remote_dh → y.message_number ≢ e.message_number) p d.0
      (sym same) (sym number))
Picks-unique (there miss p) (later m) d same number = Picks-unique p m d.1 same number

module _ (p : Primitives) (s : RatchetState) (v : IsOrdered s) (f : InnerFrame)
    (e : SkippedMessageKey) where
  -- In a session in order, a frame of the current remote key whose key was set aside is decrypted
  -- with that key, and nothing but the list of skipped keys and the generation changes.
  pub decrypt-late :
      (plaintext : Bytes) (j : ℕ)
      → In e s.skipped
      → e.remote_dh ≡ s.remote_dh
      → e.message_number ≡ f.header.message_number
      → f.header.session_id ≡ s.session_id
      → f.ciphertext.suite ≡ s.suite
      → f.header.ratchet_public ≡ s.remote_dh
      → open_frame p f e.key ≡ ok plaintext
      → (rest : List SkippedMessageKey) × (decrypt p f s j
          ≡ (ok plaintext, next_generation (record s { skipped = rest }), j))
  unfolding decrypt decrypt_same_ratchet decrypt_skipped
  decrypt-late plaintext j member current number session suite remote opened =
      let low =
        In-All (λ x. x.remote_dh ≡ s.remote_dh → x.message_number < s.receiving_count) member
          v.under current in
      let same_session : bytes_eq f.header.session_id s.session_id ≡ true =
        rw session (bytes_eq_refl s.session_id) in
      let same_suite : Suite.same f.ciphertext.suite s.suite ≡ true =
        rw suite (Suite.same_refl s.suite) in
      let same_remote : bytes_eq f.header.ratchet_public s.remote_dh ≡ true =
        rw remote (bytes_eq_refl s.remote_dh) in
      let test = is_entry f.header.ratchet_public f.header.message_number in
      let hit : test e ≡ true =
        entry_hit e.remote_dh f.header.ratchet_public e.message_number f.header.message_number
          (current ∙ sym remote) number in
      elim (position-cases test s.skipped) [
        | inl missing ↦ absurd (In-position test member hit missing)
        | inr (i, found, w) ↦
            let (same, numbered) =
              is_entry_sound f.header.ratchet_public f.header.message_number w.elem
                (Picks-test w.picked) in
            let it : w.elem ≡ e =
              Picks-unique w.picked member v.distinct (current ∙ sym remote ∙ sym same)
                (number ∙ sym numbered) in
            let opened' : open_frame p f w.elem.key ≡ ok plaintext = rw it opened in
            (
              w.rest,
              rw
                  (
                    same_session,
                    same_suite,
                    same_remote,
                    ltb-true f.header.message_number s.receiving_count (omega arith),
                    found,
                    w.read,
                    opened',
                    w.removed,
                  )
                  refl,
            )
      ]
