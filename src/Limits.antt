-- ===== src/Limits.antt =====
-- The constants of lib.rs.
use mef.Prelude.{ℕ, ◌^◌, Bytes, codes}

abbrev pub protocol_id : Bytes
protocol_id = codes "MEF-26"

abbrev pub max_skipped_keys : ℕ
max_skipped_keys = 1024

-- `1 << 20` and `1 << 16`.
abbrev pub max_ciphertext_len : ℕ
max_ciphertext_len = 2 ^ 20

abbrev pub max_aad_len : ℕ
max_aad_len = 2 ^ 16
