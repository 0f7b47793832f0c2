-- ===== src/Coding/Varint.antt =====
-- EncodeVarint32, EncodeVarint64 and VarintLength of algorithm/coding.cc against one description
-- of the format: groups of seven bits, lowest first, with bit 7 set on every byte but the last.
use kingdb.Prelude.{
  ℕ, zero, suc, ◌+◌, ◌*◌, ◌/◌, ◌%◌, ◌^◌, ◌≤◌, ◌<◌, bit_or, bit_and, ◌≡◌, refl, sym, ◌∙◌, arith, ltb,
  if◌then◌else◌, List, [], ◌∷◌, length, All,
}
use kingdb.Prelude.Bits.{bit_and_ones, bit_or_step, bit_or-zero}
use kingdb.Prelude.Order.{lt_wf}
use kingdb.Coding.{
  IsByte, low_byte, encode_varint32, encode_varint64_loop, encode_varint64, varint_length_loop,
  varint_length,
}
use mathlib.Core.WellFounded.{Acc}

-- The groups of `v`, at most `k + 1` of them.
unfoldable pub groups : ℕ → ℕ → List ℕ
groups zero v = v ∷ []
groups (suc k) v =
    let rest = groups k (v / 128) in if ltb v 128 then v ∷ [] else (v % 128 + 128) ∷ rest

or_even : (a b : ℕ) → bit_or a (b * 2) ≡ bit_or (a / 2) b * 2 + a % 2
or_even a b = ground (arith, bit_or_step a (b * 2))

or_odd : (a : ℕ) → bit_or a 1 ≡ a / 2 * 2 + 1
or_odd a = omega (arith, bit_or_step a 1, bit_or-zero (a / 2))

-- `v | 128` sets bit 7 and keeps the others.
or_128 : (v : ℕ) → bit_or v 128 ≡ v / 256 * 256 + 128 + v % 128
or_128 v = omega (
  arith,
  or_even v 64,
  or_even (v / 2) 32,
  or_even (v / 2 / 2) 16,
  or_even (v / 2 / 2 / 2) 8,
  or_even (v / 2 / 2 / 2 / 2) 4,
  or_even (v / 2 / 2 / 2 / 2 / 2) 2,
  or_even (v / 2 / 2 / 2 / 2 / 2 / 2) 1,
  or_odd (v / 2 / 2 / 2 / 2 / 2 / 2 / 2),
)

or_128_byte : (v : ℕ) → low_byte (bit_or v 128) ≡ v % 128 + 128
or_128_byte v = omega (arith, or_128 v)

and_or_byte : (v : ℕ) → low_byte (bit_or (bit_and v 127) 128) ≡ v % 128 + 128
and_or_byte v = omega (arith, or_128 (bit_and v 127), bit_and_ones 7 v 127 refl)

-- The five written-out cases of EncodeVarint32 write the groups of every uint32_t.
pub encode_varint32-groups : (v : ℕ) → v < 2 ^ 32 → encode_varint32 v ≡ groups 4 v
unfolding encode_varint32 groups
encode_varint32-groups v h = ground (
  arith,
  or_128_byte v,
  or_128_byte (v / 2 ^ 7),
  or_128_byte (v / 2 ^ 14),
  or_128_byte (v / 2 ^ 21),
)

varint64_loop-groups :
    (k v : ℕ) (w : Acc ◌<◌ v) → v < 128 ^ suc k → encode_varint64_loop v w ≡ groups k v
unfolding encode_varint64_loop groups
varint64_loop-groups zero v (Acc.intro _ smaller) h = grind arith
varint64_loop-groups (suc k) v (Acc.intro _ smaller) h = grind (
  arith,
  and_or_byte v,
  λ (w : Acc ◌<◌ (v / 2 ^ 7)). varint64_loop-groups k (v / 128) w (omega arith),
)

-- The loop of EncodeVarint64 writes the groups of every uint64_t.
pub encode_varint64-groups : (v : ℕ) → v < 2 ^ 64 → encode_varint64 v ≡ groups 9 v
unfolding encode_varint64
encode_varint64-groups v h = varint64_loop-groups 9 v (lt_wf.apply v) (omega arith)

groups_more : (k v : ℕ) → v < 128 ^ suc k → groups (suc k) v ≡ groups k v
unfolding groups
groups_more zero v h = ground arith
groups_more (suc k) v h = ground (arith, groups_more k (v / 128) (omega arith))

varint_length_loop-groups :
    (k v len : ℕ) (w : Acc ◌<◌ v)
    → v < 128 ^ suc k
    → varint_length_loop v w len + 1 ≡ len + length (groups k v)
unfolding varint_length_loop groups
varint_length_loop-groups zero v len (Acc.intro _ smaller) h = grind arith
varint_length_loop-groups (suc k) v len (Acc.intro _ smaller) h = grind (
  arith,
  λ (w : Acc ◌<◌ (v / 2 ^ 7)). varint_length_loop-groups k (v / 128) (len + 1) w (omega arith),
)

pub groups-IsByte : (k v : ℕ) → v < 128 ^ suc k → All IsByte (groups k v)
unfolding groups
groups-IsByte zero v h = omega arith
groups-IsByte (suc k) v h = ground (arith, groups-IsByte k (v / 128) (omega arith))

pub length-groups : (k v : ℕ) → (1 ≤ length (groups k v)) × (length (groups k v) ≤ k + 1)
unfolding groups
length-groups zero v = omega arith
length-groups (suc k) v = ground (arith, length-groups k (v / 128))

-- VarintLength is the number of bytes that EncodeVarint64 writes.
pub length-encode_varint64 : (v : ℕ) → v < 2 ^ 64 → length (encode_varint64 v) ≡ varint_length v
unfolding varint_length
length-encode_varint64 v h =
    rw (encode_varint64-groups v h)
      (omega (arith, varint_length_loop-groups 9 v 1 (lt_wf.apply v) (omega arith)))

-- EncodeVarint32 and EncodeVarint64 write the same bytes for a number that fits 32 bits.
pub encode_varint32-encode_varint64 : (v : ℕ) → v < 2 ^ 32 → encode_varint32 v ≡ encode_varint64 v
encode_varint32-encode_varint64 v h =
    encode_varint32-groups v h
    ∙ sym (
        encode_varint64-groups v (omega arith)
        ∙ groups_more 8 v (omega arith)
        ∙ groups_more 7 v (omega arith)
        ∙ groups_more 6 v (omega arith)
        ∙ groups_more 5 v (omega arith)
        ∙ groups_more 4 v (omega arith))

-- EncodeVarint64 writes 1 to 10 bytes, which the buffer of PutVarint64 holds, and EncodeVarint32
-- 1 to 5; each value written is a byte.
pub encode_varint_shape :
    (v : ℕ)
    → (v < 2 ^ 64
        → All IsByte (encode_varint64 v)
          × (1 ≤ length (encode_varint64 v))
          × (length (encode_varint64 v) ≤ 10))
      × (v < 2 ^ 32
          → All IsByte (encode_varint32 v)
            × (1 ≤ length (encode_varint32 v))
            × (length (encode_varint32 v) ≤ 5))
encode_varint_shape v = (
  λ h.
      let (lo, hi) = length-groups 9 v in
      rw (encode_varint64-groups v h) (groups-IsByte 9 v (omega arith), lo, hi),
  λ h.
      let (lo, hi) = length-groups 4 v in
      rw (encode_varint32-groups v h) (groups-IsByte 4 v (omega arith), lo, hi),
)
