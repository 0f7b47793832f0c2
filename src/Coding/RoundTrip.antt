-- ===== src/Coding/RoundTrip.antt =====
-- GetVarint32 and GetVarint64 read back what EncodeVarint32 and EncodeVarint64 wrote.
use kingdb.Prelude.{
  ℕ, zero, suc, ◌+◌, ◌*◌, ◌/◌, ◌%◌, ◌^◌, ◌≤◌, ◌<◌, bit_or, bit_and, ◌≡◌, refl, ◌∙◌, ap, arith, some,
  List, [], ◌∷◌, ◌++◌, length, length-append, All,
}
use kingdb.Prelude.Bits.{bit_and_ones, bit_or_above, bit_and_step}
use kingdb.Coding.{
  IsByte, shl, encode_varint32, encode_varint64, get_varint_loop, get_varint32_ptr_fallback,
  get_varint32_ptr, get_varint64_ptr, with_length, get_varint32, get_varint64,
}
use kingdb.Coding.Varint.{
  groups, encode_varint32-groups, encode_varint64-groups, length-groups, groups-IsByte,
}
use native.Mathlib.Nat.{mod-eq_of_lt, div-add-mod}
use native.Mathlib.Numerals.{towards_suc}

and_even : (a b : ℕ) → bit_and a (b * 2) ≡ bit_and (a / 2) b * 2
and_even a b = ground (arith, bit_and_step a (b * 2))

-- The bit that says that more bytes follow.
pub and_128 : (b : ℕ) → b < 256 → bit_and b 128 ≡ b / 128 * 128
and_128 b h = omega (
  arith,
  and_even b 64,
  and_even (b / 2) 32,
  and_even (b / 2 / 2) 16,
  and_even (b / 2 / 2 / 2) 8,
  and_even (b / 2 / 2 / 2 / 2) 4,
  and_even (b / 2 / 2 / 2 / 2 / 2) 2,
  and_even (b / 2 / 2 / 2 / 2 / 2 / 2) 1,
  bit_and_ones 1 (b / 2 / 2 / 2 / 2 / 2 / 2 / 2) 1 refl,
)

pub and_127 : (b : ℕ) → bit_and b 127 ≡ b % 128
and_127 b = bit_and_ones 7 b 127 refl

or_group :
    (w s acc g : ℕ) → acc < 2 ^ s → g * 2 ^ s < 2 ^ w → bit_or acc (shl w g s) ≡ acc + g * 2 ^ s
unfolding shl
or_group w s acc g h fits = rw (mod-eq_of_lt fits) (bit_or_above s acc g h)

module _ (w top s acc : ℕ) (rest : List ℕ) (in_range : s ≤ top) (filled : acc < 2 ^ s) where
  last_group :
      (g : ℕ)
      → g < 128
      → g * 2 ^ s < 2 ^ w
      → get_varint_loop w top (g ∷ rest) s acc ≡ some (acc + g * 2 ^ s, rest)
  unfolding get_varint_loop
  last_group g small fits = ground (arith, and_128 g, or_group w s acc g)

  inner_group :
      (g : ℕ)
      → g < 128
      → g * 2 ^ s < 2 ^ w
      → get_varint_loop w top ((g + 128) ∷ rest) s acc
        ≡ get_varint_loop w top rest (s + 7) (acc + g * 2 ^ s)
  unfolding get_varint_loop
  inner_group g small fits =
      ground (arith, and_128 (g + 128), and_127 (g + 128), or_group w s acc g)

pow_seven : (s : ℕ) → 2 ^ (s + 7) ≡ 128 * 2 ^ s
pow_seven s = simp towards_suc (omega arith)

-- The low group and what is above it, both at bit `s`.
split_group : (v s : ℕ) → v * 2 ^ s ≡ v % 128 * 2 ^ s + v / 128 * 2 ^ (s + 7)
split_group v s = rw pow_seven (omega (arith, ap (λ (t : ℕ). t * 2 ^ s) (div-add-mod v 128)))

-- What the groups so far fill stays below the next shift.
filled_more : (s acc g : ℕ) → acc < 2 ^ s → g < 128 → acc + g * 2 ^ s < 2 ^ (s + 7)
filled_more s acc g h small = rw pow_seven (grind arith)

low_fits : (v s b : ℕ) → v * 2 ^ s < b → v % 128 * 2 ^ s < b
low_fits v s b h = omega (arith, split_group v s)

-- The loop reads the groups of `v`, to be placed at bit `s` above what is in `acc`.
get_varint_loop-groups :
    (w top k v s acc : ℕ) (rest : List ℕ)
    → v < 128 ^ suc k
    → acc < 2 ^ s
    → acc + v * 2 ^ s < 2 ^ w
    → s + 7 * k ≤ top
    → get_varint_loop w top (groups k v ++ rest) s acc ≡ some (acc + v * 2 ^ s, rest)
unfolding groups
get_varint_loop-groups w top zero v s acc rest h filled fits room =
    last_group w top s acc rest (omega arith) filled v (omega arith) (omega arith)
get_varint_loop-groups w top (suc k) v s acc rest h filled fits room = ground (
  arith,
  last_group w top s acc rest (omega arith) filled v,
  inner_group w top s acc (groups k (v / 128) ++ rest) (omega arith) filled (v % 128),
  split_group v s,
  low_fits v s (2 ^ w) (omega arith),
  get_varint_loop-groups w top k (v / 128) (s + 7) (acc + v % 128 * 2 ^ s) rest (omega arith)
      (filled_more s acc (v % 128) filled (omega arith)),
)

fallback-groups :
    (v : ℕ) (rest : List ℕ)
    → v < 2 ^ 32
    → get_varint32_ptr_fallback (groups 4 v ++ rest) ≡ some (v, rest)
unfolding get_varint32_ptr_fallback
fallback-groups v rest h =
    get_varint_loop-groups 32 28 4 v 0 0 rest (omega arith) (omega arith) (omega arith)
      (omega arith)
    ∙ ap (λ n. some (n, rest)) (omega arith)

first_byte : (w b : ℕ) → b < 2 ^ w → bit_or 0 (shl w b 0) ≡ b
first_byte w b h = or_group w 0 0 b (omega arith) (omega arith) ∙ omega arith

fast_path :
    (b : ℕ) (rest : List ℕ)
    → b < 256
    → get_varint32_ptr (b ∷ rest) ≡ get_varint32_ptr_fallback (b ∷ rest)
unfolding get_varint32_ptr
fast_path b rest h = ground (arith, first_byte 32 b (omega arith))

-- The fast path of GetVarint32Ptr for a number of one byte gives what the loop gives, on every
-- sequence of bytes.
pub get_varint32_ptr-fallback :
    (bytes : List ℕ) → All IsByte bytes → get_varint32_ptr bytes ≡ get_varint32_ptr_fallback bytes
get_varint32_ptr-fallback [] h = unfold get_varint32_ptr in refl
get_varint32_ptr-fallback (b ∷ bs) h = fast_path b bs h.0

fast_path_append :
    (xs rest : List ℕ)
    → All IsByte xs
    → 1 ≤ length xs
    → get_varint32_ptr (xs ++ rest) ≡ get_varint32_ptr_fallback (xs ++ rest)
fast_path_append [] rest h n = absurd (omega arith)
fast_path_append (b ∷ bs) rest h n = fast_path b (bs ++ rest) h.0

with_length_front :
    (v : ℕ) (front rest : List ℕ)
    → with_length (front ++ rest) (some (v, rest)) ≡ some (length front, v)
with_length_front v front rest = ap (λ n. some (n, v)) (rw length-append (omega arith))

-- At the level of the pointers: the value, and what follows it.
pub get_varint32_ptr-encode_varint32 :
    (v : ℕ) (rest : List ℕ)
    → v < 2 ^ 32
    → get_varint32_ptr (encode_varint32 v ++ rest) ≡ some (v, rest)
get_varint32_ptr-encode_varint32 v rest h = rw (encode_varint32-groups v h) (
    fast_path_append (groups 4 v) rest (groups-IsByte 4 v (omega arith)) (length-groups 4 v).0
    ∙ fallback-groups v rest h)

pub get_varint64_ptr-encode_varint64 :
    (v : ℕ) (rest : List ℕ)
    → v < 2 ^ 64
    → get_varint64_ptr (encode_varint64 v ++ rest) ≡ some (v, rest)
unfolding get_varint64_ptr
get_varint64_ptr-encode_varint64 v rest h = rw (encode_varint64-groups v h) (
    get_varint_loop-groups 64 63 9 v 0 0 rest (omega arith) (omega arith) (omega arith)
      (omega arith)
    ∙ ap (λ n. some (n, rest)) (omega arith))

-- GetVarint32 reads back the uint32_t that EncodeVarint32 wrote, whatever bytes follow it, and
-- returns the number of bytes that were written.
pub get_varint32-encode_varint32 :
    (v : ℕ) (rest : List ℕ)
    → v < 2 ^ 32
    → get_varint32 (encode_varint32 v ++ rest) ≡ some (length (encode_varint32 v), v)
get_varint32-encode_varint32 v rest h =
    unfold get_varint32 in
    ap (with_length (encode_varint32 v ++ rest)) (get_varint32_ptr-encode_varint32 v rest h)
    ∙ with_length_front v (encode_varint32 v) rest

-- The same for GetVarint64 and the uint64_t that EncodeVarint64 wrote.
pub get_varint64-encode_varint64 :
    (v : ℕ) (rest : List ℕ)
    → v < 2 ^ 64
    → get_varint64 (encode_varint64 v ++ rest) ≡ some (length (encode_varint64 v), v)
get_varint64-encode_varint64 v rest h =
    unfold get_varint64 in
    ap (with_length (encode_varint64 v ++ rest)) (get_varint64_ptr-encode_varint64 v rest h)
    ∙ with_length_front v (encode_varint64 v) rest
