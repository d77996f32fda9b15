-- ===== src/Envelope/Replay/Once.antt =====
-- envelope/replay.rs: lists of calls of `check_and_insert` on one cache.
use mef.Prelude.{
  ℕ, ◌≤◌, ◌<◌, ◌≡◌, refl, inl, inr, true, List, [], ◌∷◌, ◌++◌, arith, All, length, length-append,
  leb, leb-true, ◌==◌, bytes_eq_refl, Bool-cases,
}
use mef.Error.{ok, err, replay_detected}
use mef.Vec.{any}
use mef.Envelope.Capability.{TransportMessageId}
use mef.Envelope.Replay.{ReplayCache, new, retain, is_id, check_and_insert}

-- The identifier stands in the list, to be kept until the time.
pub data Held (message_id : TransportMessageId) (expires_at : ℕ)
    : List (TransportMessageId × ℕ) → Type 0 where
  first :
      {es : List (TransportMessageId × ℕ)}
      → Held message_id expires_at ((message_id, expires_at) ∷ es)
  later :
      {entry : TransportMessageId × ℕ} {es : List (TransportMessageId × ℕ)}
      → Held message_id expires_at es
      → Held message_id expires_at (entry ∷ es)

module _ {message_id : TransportMessageId} {expires_at : ℕ} where
  retain-Held :
      (now : ℕ) {es : List (TransportMessageId × ℕ)}
      → now ≤ expires_at
      → Held message_id expires_at es
      → Held message_id expires_at (retain now es)
  unfolding retain
  retain-Held now h first = rw (leb-true now expires_at h) first
  retain-Held now h (later {entry = (other, until)} held) = elim (Bool-cases (leb now until)) [
    | inl kept ↦ rw kept (later (retain-Held now h held))
    | inr gone ↦ rw gone (retain-Held now h held)
  ]

  append-Held :
      {es : List (TransportMessageId × ℕ)} (fs : List (TransportMessageId × ℕ))
      → Held message_id expires_at es
      → Held message_id expires_at (es ++ fs)
  append-Held fs first = first
  append-Held fs (later held) = later (append-Held fs held)

  any-Held :
      {es : List (TransportMessageId × ℕ)}
      → Held message_id expires_at es
      → any (is_id message_id) es ≡ true
  unfolding any
  any-Held first = rw (bytes_eq_refl message_id) refl
  any-Held (later {entry = entry} held) = rw (any-Held held) (ground arith)

end-Held :
    (message_id : TransportMessageId) (expires_at : ℕ) (es : List (TransportMessageId × ℕ))
    → Held message_id expires_at (es ++ (message_id, expires_at) ∷ [])
end-Held message_id expires_at [] = first
end-Held message_id expires_at (e ∷ es) = later (end-Held message_id expires_at es)

length-retain : (now : ℕ) (es : List (TransportMessageId × ℕ)) → length (retain now es) ≤ length es
unfolding retain
length-retain now [] = omega arith
length-retain now ((other, until) ∷ es) = ground (arith, length-retain now es)

pub record IsCache (c : ReplayCache) : Type 0 where
  pub room : 0 < c.capacity
  pub bounded : length c.entries ≤ c.capacity

-- A call at an identifier, its expiry and the time of the call.
abbrev pub Check : Type 0
Check = TransportMessageId × ℕ × ℕ

-- The cache behind a list of calls, whether they let their identifiers through or not.
unfoldable pub checks : List Check → ReplayCache → ReplayCache
checks [] c = c
checks ((message_id, expires_at, now) ∷ calls) c =
    checks calls (check_and_insert message_id expires_at now c 0).1

module _ (c : ReplayCache) (g : ℕ) where
  check_and_insert-IsCache :
      (message_id : TransportMessageId) (expires_at now : ℕ)
      → IsCache c
      → IsCache (check_and_insert message_id expires_at now c g).1
  unfolding check_and_insert
  check_and_insert-IsCache message_id expires_at now v = ground (
    arith,
    length-retain now c.entries,
    length-append (retain now c.entries) ((message_id, expires_at) ∷ []),
  )

  check_and_insert-Held :
      {held_id : TransportMessageId} {until : ℕ} (message_id : TransportMessageId)
      (expires_at now : ℕ)
      → now ≤ until
      → Held held_id until c.entries
      → Held held_id until (check_and_insert message_id expires_at now c g).1.entries
  unfolding check_and_insert
  check_and_insert-Held message_id expires_at now h held =
      let kept = retain-Held now h held in
      ground (arith, append-Held ((message_id, expires_at) ∷ []) kept)

  pub check_and_insert-refuses :
      {message_id : TransportMessageId} {until : ℕ} (expires_at now : ℕ)
      → now ≤ until
      → Held message_id until c.entries
      → check_and_insert message_id expires_at now c g
        ≡ (err replay_detected, record c { entries = retain now c.entries }, g)
  unfolding check_and_insert
  check_and_insert-refuses expires_at now h held = rw (any-Held (retain-Held now h held)) refl

  pub check_and_insert-accepts :
      (message_id : TransportMessageId) (expires_at now : ℕ) {g' : ℕ} {c' : ReplayCache}
      → check_and_insert message_id expires_at now c g ≡ (ok tt, c', g')
      → Held message_id expires_at c'.entries
  unfolding check_and_insert
  check_and_insert-accepts message_id expires_at now h =
      let e = end-Held message_id expires_at (retain now c.entries) in ground arith

pub checks-Held :
    {held_id : TransportMessageId} {until : ℕ} (calls : List Check) (c : ReplayCache)
    → All (λ (other, expires_at, now). now ≤ until) calls
    → Held held_id until c.entries
    → Held held_id until (checks calls c).entries
unfolding checks
checks-Held [] c h held = held
checks-Held ((message_id, expires_at, now) ∷ calls) c (h, hs) held =
    checks-Held calls (check_and_insert message_id expires_at now c 0).1 hs
      (check_and_insert-Held c 0 message_id expires_at now h held)

checks-IsCache : (calls : List Check) (c : ReplayCache) → IsCache c → IsCache (checks calls c)
unfolding checks
checks-IsCache [] c v = v
checks-IsCache ((message_id, expires_at, now) ∷ calls) c v =
    checks-IsCache calls (check_and_insert message_id expires_at now c 0).1
      (check_and_insert-IsCache c 0 message_id expires_at now v)

-- A new cache has room, and stays within its capacity through any calls.
pub checks-new :
    (capacity : ℕ) (c : ReplayCache) (calls : List Check)
    → new capacity ≡ ok c
    → IsCache (checks calls c)
unfolding new
checks-new capacity c calls made = checks-IsCache calls c (elim (Bool-cases (capacity == 0)) [
  | inl none_fits ↦ ground arith
  | inr some_fit ↦ ground arith
])

-- An identifier that was let through is refused with ReplayDetected at any later call with it, after
-- any calls in between, as long as the clock of all calls has not passed its expiry.
pub checks-refuses :
    (message_id : TransportMessageId) (expires_at now : ℕ) (c c' : ReplayCache) (calls : List Check)
    (expires_again now_again g g' : ℕ)
    → check_and_insert message_id expires_at now c g ≡ (ok tt, c', g')
    → All (λ (other, until, time). time ≤ expires_at) calls
    → now_again ≤ expires_at
    → (check_and_insert message_id expires_again now_again (checks calls c') g).0
      ≡ err replay_detected
checks-refuses message_id expires_at now c c' calls expires_again now_again g g' accepted in_time
      again =
    let held =
      checks-Held calls c' in_time
        (check_and_insert-accepts c g message_id expires_at now accepted) in
    rw (check_and_insert-refuses (checks calls c') g expires_again now_again again held) refl
