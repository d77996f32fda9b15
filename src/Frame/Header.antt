-- ===== src/Frame/Header.antt =====
-- frame/header.rs.
use mef.Prelude.{ℕ, ◌≡◌, refl, arith, ◌==◌, if◌then◌else◌, Bytes}
use mef.Error.{Ensures, Result, ok, err, invalid_frame}

pub data FrameKind : Type 0 where
  init message ack control reset : FrameKind

unfoldable pub kind_from_id : ℕ → Result FrameKind
kind_from_id value =
    if value == 1
    then ok init
    else if value == 2
    then ok message
    else if value == 3
    then ok ack
    else if value == 4
    then ok control
    else if value == 5
    then ok reset
    else err invalid_frame

unfoldable pub kind_id : FrameKind → ℕ
kind_id init = 1
kind_id message = 2
kind_id ack = 3
kind_id control = 4
kind_id reset = 5

-- `FrameHeader::new` builds the record, and the getters are its fields.
pub record FrameHeader : Type 0 where
  pub kind : FrameKind
  pub session_id : Bytes
  pub ratchet_public : Bytes
  pub previous_chain_len : ℕ
  pub message_number : ℕ

pub kind_from_id-kind_id : (k : FrameKind) → kind_from_id (kind_id k) ≡ ok k
unfolding kind_from_id kind_id
kind_from_id-kind_id init = refl
kind_from_id-kind_id _ = refl

pub kind_id-kind_from_id : (v : ℕ) (k : FrameKind) → kind_from_id v ≡ ok k → kind_id k ≡ v
unfolding kind_from_id kind_id
kind_id-kind_from_id v k h = ground arith

pub kind_from_id-Ensures : (v : ℕ) → Ensures (λ k. kind_id k ≡ v) (kind_from_id v)
unfolding kind_from_id kind_id
kind_from_id-Ensures v = ground arith
