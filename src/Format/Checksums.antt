-- ===== src/Format/Checksums.antt =====
-- The functions of algorithm/crc32c.cc that the format uses: `crc8(0, ...)`, which returns a
-- uint8_t, and `Value(...)`, which returns a uint32_t.
use kingdb.Prelude.{ℕ, ◌^◌, ◌<◌, List}

pub record Checksums : Type 0 where
  pub crc8 : List ℕ → ℕ
  pub crc32_value : List ℕ → ℕ
  pub crc8_bound : (bytes : List ℕ) → crc8 bytes < 256
  pub crc32_value_bound : (bytes : List ℕ) → crc32_value bytes < 2 ^ 32
