-- ===== src/Ratchet/Skipped.antt =====
-- ratchet/state.rs: predicates on the list of skipped keys, and the changes made to it.
use mef.Prelude.{
  ℕ, suc, ◌+◌, ◌≤◌, ◌<◌, ◌≡◌, ◌≢◌, refl, sym, ap, Bool, true, none, List, [], ◌∷◌, ◌++◌, arith,
  length, All, All-append, bytes_eq_sound, Bool-cases, inl, inr,
}
use mef.Vec.{position, Picks, here, there}
use mef.Vec.Laws.{All-Picks, All-Picks_elem}
use mef.Keys.Dh.{DhPublicKey}
use mef.Ratchet.Schedule.{SkippedKeys}
use mef.Ratchet.Schedule.Laws.{IsRun}
use mef.Ratchet.State.{SkippedMessageKey, skipped_entries}
use mef.Ratchet.Decrypt.{is_entry}

-- No key for this number of this remote key.
abbrev pub Absent : DhPublicKey → ℕ → List SkippedMessageKey → Type 0
Absent remote n = All λ e. e.remote_dh ≡ remote → e.message_number ≢ n

-- All numbers of this remote key are below the bound.
abbrev pub Under : DhPublicKey → ℕ → List SkippedMessageKey → Type 0
Under remote bound = All λ e. e.remote_dh ≡ remote → e.message_number < bound

-- No key of this remote key at all.
abbrev pub Fresh : DhPublicKey → List SkippedMessageKey → Type 0
Fresh remote = All λ e. e.remote_dh ≢ remote

abbrev pub Distinct : List SkippedMessageKey → Type 0
Distinct [] = Unit {0}
Distinct (e ∷ es) = Absent e.remote_dh e.message_number es × Distinct es

pub is_entry_sound :
    (remote : DhPublicKey) (n : ℕ) (e : SkippedMessageKey)
    → is_entry remote n e ≡ true
    → (e.remote_dh ≡ remote) × (e.message_number ≡ n)
is_entry_sound remote n e h = ground (arith, bytes_eq_sound e.remote_dh remote)

pub position-Absent :
    (remote : DhPublicKey) (n : ℕ) (es : List SkippedMessageKey)
    → Absent remote n es
    → position (is_entry remote n) es ≡ none
unfolding position
position-Absent remote n [] h = refl
position-Absent remote n (e ∷ es) h = elim (Bool-cases (is_entry remote n e)) [
  | inl hit ↦ let (same, number) = is_entry_sound remote n e hit in absurd (h.0 same number)
  | inr miss ↦ rw (miss, position-Absent remote n es h.1)
]

pub Under-Absent :
    (remote : DhPublicKey) (bound n : ℕ) (es : List SkippedMessageKey)
    → Under remote bound es
    → bound ≤ n
    → Absent remote n es
Under-Absent remote bound n [] h k = tt
Under-Absent remote bound n (e ∷ es) h k = (
  (λ same number. let low = h.0 same in absurd (omega arith)),
  Under-Absent remote bound n es h.1 k,
)

pub Under-mono :
    (remote : DhPublicKey) (a b : ℕ) (es : List SkippedMessageKey)
    → a ≤ b
    → Under remote a es
    → Under remote b es
Under-mono remote a b [] h u = tt
Under-mono remote a b (e ∷ es) h u =
    ((λ same. let low = u.0 same in omega arith), Under-mono remote a b es h u.1)

pub Under-of_Fresh :
    (remote : DhPublicKey) (b : ℕ) (es : List SkippedMessageKey)
    → Fresh remote es
    → Under remote b es
Under-of_Fresh remote b [] h = tt
Under-of_Fresh remote b (e ∷ es) h = ((λ same. absurd (h.0 same)), Under-of_Fresh remote b es h.1)

pub Fresh-entries :
    (remote other : DhPublicKey) (keys : SkippedKeys)
    → other ≢ remote
    → Fresh remote (skipped_entries other keys)
Fresh-entries remote other [] h = tt
Fresh-entries remote other ((n, key) ∷ keys) h = (h, Fresh-entries remote other keys h)

pub Under-entries :
    (remote other : DhPublicKey) (a b : ℕ) (keys : SkippedKeys)
    → IsRun a keys
    → a + length keys ≤ b
    → Under remote b (skipped_entries other keys)
Under-entries remote other a b [] r h = tt
Under-entries remote other a b ((n, key) ∷ keys) r h =
    ((λ _. omega arith), Under-entries remote other (a + 1) b keys r.1 (omega arith))

-- Entries under the remote key with larger numbers than `m`.
entries-Absent :
    (remote other : DhPublicKey) (m a : ℕ) (keys : SkippedKeys)
    → IsRun a keys
    → (remote ≡ other → m < a)
    → Absent remote m (skipped_entries other keys)
entries-Absent remote other m a [] r h = tt
entries-Absent remote other m a ((n, key) ∷ keys) r h = (
  (λ same number. let low = h (sym same) in absurd (omega arith)),
  entries-Absent remote other m (a + 1) keys r.1 (λ same. let low = h same in omega arith),
)

Distinct-entries :
    (remote : DhPublicKey) (a : ℕ) (keys : SkippedKeys)
    → IsRun a keys
    → Distinct (skipped_entries remote keys)
Distinct-entries remote a [] r = tt
Distinct-entries remote a ((n, key) ∷ keys) r = (
  entries-Absent remote remote n (a + 1) keys r.1 (λ _. omega arith),
  Distinct-entries remote (a + 1) keys r.1,
)

-- Adding a run of keys above all numbers that the remote key has.
pub Distinct-add :
    (remote : DhPublicKey) (a : ℕ) (keys : SkippedKeys) (es : List SkippedMessageKey)
    → Distinct es
    → Under remote a es
    → IsRun a keys
    → Distinct (es ++ skipped_entries remote keys)
Distinct-add remote a keys [] d u r = Distinct-entries remote a keys r
Distinct-add remote a keys (e ∷ es) d u r = (
  All-append (λ x. x.remote_dh ≡ e.remote_dh → x.message_number ≢ e.message_number) es
      (skipped_entries remote keys) d.0
      (entries-Absent e.remote_dh remote e.message_number a keys r u.0),
  Distinct-add remote a keys es d.1 u.1 r,
)

-- Taking out a key leaves none with its number.
pub Distinct-Picks :
    {test : SkippedMessageKey → Bool} {es rest : List SkippedMessageKey} {e : SkippedMessageKey}
    → Picks test es e rest
    → Distinct es
    → Distinct rest × Absent e.remote_dh e.message_number rest
Distinct-Picks (here hit) d = (d.1, d.0)
Distinct-Picks {e = e} (there {x = x} miss p) d =
    let ih = Distinct-Picks p d.1 in
    let x_absent = d.0 in
    (
      (
        All-Picks (λ y. y.remote_dh ≡ x.remote_dh → y.message_number ≢ x.message_number) p x_absent,
        ih.0,
      ),
      (
        (λ same number.
            All-Picks_elem (λ y. y.remote_dh ≡ x.remote_dh → y.message_number ≢ x.message_number) p
              x_absent (sym same) (sym number)),
        ih.1,
      ),
    )

pub length-entries :
    (remote : DhPublicKey) (keys : SkippedKeys) → length (skipped_entries remote keys) ≡ length keys
length-entries remote [] = refl
length-entries remote ((n, key) ∷ keys) = ap suc (length-entries remote keys)
