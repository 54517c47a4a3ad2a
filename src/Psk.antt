-- ===== src/Psk.antt =====
-- The 32-byte pre-shared key: src/psk.rs.
use symbolon.Prelude.{ℕ, ◌*◌, Bytes}

abbrev pub len : ℕ
len = 32

abbrev pub hex_len : ℕ
hex_len = len * 2

pub record Psk : Type 0 where
  pub bytes : Bytes
