-- ===== src/Samples.antt =====
-- Concrete hosts and a checksum, for the runs of the other modules.
use kingdb.Prelude.{ℕ, ◌+◌, ◌%◌, ◌^◌, ◌<◌, arith, true, false, List, [], ◌∷◌}
use kingdb.Coding.{Platform}
use kingdb.Format.Checksums.{Checksums}

abbrev pub x86 : Platform
x86 = record { little_endian = true; char_signed = true }

abbrev pub sparc : Platform
sparc = record { little_endian = false; char_signed = true }

-- The sum of the bytes, in place of the CRCs.
unfoldable pub sum : List ℕ → ℕ
sum [] = 0
sum (b ∷ bs) = (b + sum bs) % 256

pub sum_bound : (bytes : List ℕ) → sum bytes < 256
unfolding sum
sum_bound [] = omega arith
sum_bound (b ∷ bs) = omega arith

pub sum_bound32 : (bytes : List ℕ) → sum bytes < 2 ^ 32
sum_bound32 bytes = omega (arith, sum_bound bytes)

abbrev pub sums : Checksums
sums = record {
  crc8 = sum;
  crc32_value = sum;
  crc8_bound = sum_bound;
  crc32_value_bound = sum_bound32;
}
