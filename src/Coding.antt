-- ===== src/Coding.antt =====
-- algorithm/coding.cc, algorithm/coding.h and algorithm/endian.cc: integers of fixed and of variable
-- width as bytes. A byte is a number below 256. What a function writes through a pointer is the list of the bytes
-- written; what it reads is the list of the bytes that follow the pointer, up to the limit.
pub mod Fixed
pub mod Varint
pub mod Decode
pub mod RoundTrip
mod Runs
use kingdb.Prelude.{
  ℕ, zero, suc, ◌+◌, ◌-◌, ◌*◌, ◌/◌, ◌%◌, ◌^◌, ◌≤◌, ◌<◌, bit_and, bit_or, arith, Bool, ◌&&◌, Option,
  none, some, List, [], ◌∷◌, ltb, leb, ◌==◌, if◌then◌else◌, length,
}
use kingdb.Prelude.Order.{lt_wf}
use mathlib.Core.Logic.{dite}
use mathlib.Core.WellFounded.{Acc}
use native.Mathlib.Decide.{dec_lt}

abbrev pub IsByte : ℕ → Type 0
IsByte b = b < 256

-- The host: the byte order of its integers in memory, and whether a plain `char` is signed.
pub record Platform : Type 0 where
  pub little_endian : Bool
  pub char_signed : Bool

abbrev pub bytes_little_endian : ℕ
bytes_little_endian = 0x00000001

abbrev pub bytes_big_endian : ℕ
bytes_big_endian = 0x01000000

abbrev pub bytes_little_endian_word : ℕ
bytes_little_endian_word = 0x00010000

abbrev pub bytes_big_endian_word : ℕ
bytes_big_endian_word = 0x00000100

abbrev pub bytes_unknown_endian : ℕ
bytes_unknown_endian = 0xffffffff

-- getEndianness: it tests a constant, so it has the same result on every host.
abbrev pub get_endianness : ℕ
get_endianness =
    if bit_and 0xffffffff 1 == bytes_little_endian
    then bytes_little_endian
    else if bit_and 0xffffffff 1 == bytes_big_endian
    then bytes_big_endian
    else if bit_and 0xffffffff 1 == bytes_little_endian_word
    then bytes_little_endian_word
    else if bit_and 0xffffffff 1 == bytes_big_endian_word
    then bytes_big_endian_word
    else bytes_unknown_endian

abbrev pub k_little_endian : Bool
k_little_endian = get_endianness == bytes_little_endian

-- The byte of a number that is `i` places above its lowest one.
unfoldable pub byte_of : ℕ → ℕ → ℕ
byte_of zero v = v % 256
byte_of (suc i) v = byte_of i (v / 256)

-- The last `k` bytes in memory of an unsigned integer of `n` bytes.
unfoldable pub last_bytes : Platform → ℕ → ℕ → ℕ → List ℕ
unfolding byte_of
last_bytes p n zero v = []
last_bytes p n (suc k) v =
    (if p.little_endian then byte_of (n - suc k) v else byte_of k v) ∷ last_bytes p n k v

-- The object representation of an unsigned integer of `n` bytes, in the byte order of the host, which
-- is what `memcpy` copies.
unfoldable pub to_memory : Platform → ℕ → ℕ → List ℕ
unfolding last_bytes
to_memory p n v = last_bytes p n n v

unfoldable pub of_memory : Platform → List ℕ → ℕ
of_memory p [] = 0
of_memory p (b ∷ bs) =
    let rest = of_memory p bs in
    if p.little_endian then b + 256 * rest else b * 256 ^ length bs + rest

-- `buf[i] = (value >> 8 * i) & 0xff` for the `n` bytes of the value.
unfoldable pub shifted_bytes : ℕ → ℕ → List ℕ
shifted_bytes zero v = []
shifted_bytes (suc n) v = bit_and v 0xff ∷ shifted_bytes n (v / 2 ^ 8)

unfoldable pub encode_fixed32 : Platform → ℕ → List ℕ
unfolding to_memory shifted_bytes
encode_fixed32 p value = if k_little_endian then to_memory p 4 value else shifted_bytes 4 value

unfoldable pub encode_fixed64 : Platform → ℕ → List ℕ
unfolding to_memory shifted_bytes
encode_fixed64 p value = if k_little_endian then to_memory p 8 value else shifted_bytes 8 value

-- `(uint32_t)buf[i]` and `(uint64_t)buf[i]` of a `char`: a signed one is extended by its sign.
unfoldable pub widen : Platform → ℕ → ℕ → ℕ
widen p w b = if p.char_signed && leb 128 b then b + (2 ^ w - 256) else b

-- `x << k` in an unsigned integer of `w` bits.
unfoldable pub shl : ℕ → ℕ → ℕ → ℕ
shl w x k = x * 2 ^ k % 2 ^ w

-- A load reads its bytes whether or not they are there: `none` is a read out of bounds.
unfoldable pub get_fixed32 : Platform → List ℕ → Option ℕ
unfolding of_memory widen shl
get_fixed32 p (b0 ∷ b1 ∷ b2 ∷ b3 ∷ rest) = some (
    if k_little_endian
    then of_memory p (b0 ∷ b1 ∷ b2 ∷ b3 ∷ [])
    else bit_or
        (bit_or (bit_or (widen p 32 b0) (shl 32 (widen p 32 b1) 8)) (shl 32 (widen p 32 b2) 16))
        (shl 32 (widen p 32 b3) 24))
get_fixed32 p bytes = none

-- The eight bytes of the other branch, as `byte` widens them.
unfoldable pub or_bytes64 : (ℕ → ℕ) → ℕ → ℕ → ℕ → ℕ → ℕ → ℕ → ℕ → ℕ → ℕ
unfolding shl
or_bytes64 byte b0 b1 b2 b3 b4 b5 b6 b7 =
    let low =
      bit_or (bit_or (bit_or (byte b0) (shl 64 (byte b1) 8)) (shl 64 (byte b2) 16))
        (shl 64 (byte b3) 24) in
    bit_or
      (bit_or (bit_or (bit_or low (shl 64 (byte b4) 32)) (shl 64 (byte b5) 40))
        (shl 64 (byte b6) 48))
      (shl 64 (byte b7) 56)

unfoldable pub get_fixed64 : Platform → List ℕ → Option ℕ
unfolding of_memory widen or_bytes64
get_fixed64 p (b0 ∷ b1 ∷ b2 ∷ b3 ∷ b4 ∷ b5 ∷ b6 ∷ b7 ∷ rest) = some (
    if k_little_endian
    then of_memory p (b0 ∷ b1 ∷ b2 ∷ b3 ∷ b4 ∷ b5 ∷ b6 ∷ b7 ∷ [])
    else or_bytes64 (widen p 64) b0 b1 b2 b3 b4 b5 b6 b7)
get_fixed64 p bytes = none

-- A store through `unsigned char *`.
abbrev pub low_byte : ℕ → ℕ
low_byte v = v % 256

unfoldable pub encode_varint32 : ℕ → List ℕ
encode_varint32 v =
    if ltb v (2 ^ 7)
    then low_byte v ∷ []
    else if ltb v (2 ^ 14)
    then low_byte (bit_or v 128) ∷ low_byte (v / 2 ^ 7) ∷ []
    else if ltb v (2 ^ 21)
    then low_byte (bit_or v 128) ∷ low_byte (bit_or (v / 2 ^ 7) 128) ∷ low_byte (v / 2 ^ 14) ∷ []
    else if ltb v (2 ^ 28)
    then low_byte (bit_or v 128)
      ∷ low_byte (bit_or (v / 2 ^ 7) 128)
      ∷ low_byte (bit_or (v / 2 ^ 14) 128)
      ∷ low_byte (v / 2 ^ 21)
      ∷ []
    else low_byte (bit_or v 128)
      ∷ low_byte (bit_or (v / 2 ^ 7) 128)
      ∷ low_byte (bit_or (v / 2 ^ 14) 128)
      ∷ low_byte (bit_or (v / 2 ^ 21) 128)
      ∷ low_byte (v / 2 ^ 28)
      ∷ []

pub shift_falls : (v : ℕ) → ¬ (v < 128) → v / 2 ^ 7 < v
shift_falls v h = omega arith

-- `while (v >= B)`, whose body shifts `v` right by seven bits.
encode_varint64_loop : (v : ℕ) → Acc ◌<◌ v → List ℕ
encode_varint64_loop v (Acc.intro _ smaller) =
    dite (dec_lt v 128) (λ _. low_byte v ∷ [])
      (λ more.
        low_byte (bit_or (bit_and v 127) 128)
        ∷ encode_varint64_loop (v / 2 ^ 7) (smaller _ (shift_falls v more)))

unfoldable pub encode_varint64 : ℕ → List ℕ
unfolding encode_varint64_loop lt_wf dec_lt
encode_varint64 v = encode_varint64_loop v (lt_wf.apply v)

varint_length_loop : (v : ℕ) → Acc ◌<◌ v → ℕ → ℕ
varint_length_loop v (Acc.intro _ smaller) len =
    dite (dec_lt v 128) (λ _. len)
      (λ more. varint_length_loop (v / 2 ^ 7) (smaller _ (shift_falls v more)) (len + 1))

unfoldable pub varint_length : ℕ → ℕ
unfolding varint_length_loop lt_wf dec_lt
varint_length v = varint_length_loop v (lt_wf.apply v) 1

-- The loop of both decoders over the bytes before `limit`, for a result of `w` bits and shifts up
-- to `top`. The result is the value and the bytes after it, or `none` for the null pointer.
get_varint_loop : ℕ → ℕ → List ℕ → ℕ → ℕ → Option (ℕ × List ℕ)
unfolding shl
get_varint_loop w top [] shift result = none
get_varint_loop w top (byte ∷ rest) shift result =
    let last = some (bit_or result (shl w byte shift), rest) in
    let more =
      get_varint_loop w top rest (shift + 7) (bit_or result (shl w (bit_and byte 127) shift)) in
    if leb shift top then if bit_and byte 128 == 0 then last else more else none

unfoldable pub get_varint32_ptr_fallback : List ℕ → Option (ℕ × List ℕ)
unfolding get_varint_loop
get_varint32_ptr_fallback bytes = get_varint_loop 32 28 bytes 0 0

unfoldable pub get_varint32_ptr : List ℕ → Option (ℕ × List ℕ)
unfolding get_varint32_ptr_fallback
get_varint32_ptr [] = get_varint32_ptr_fallback []
get_varint32_ptr (byte ∷ rest) =
    if bit_and byte 128 == 0 then some (byte, rest) else get_varint32_ptr_fallback (byte ∷ rest)

unfoldable pub get_varint64_ptr : List ℕ → Option (ℕ × List ℕ)
unfolding get_varint_loop
get_varint64_ptr bytes = get_varint_loop 64 63 bytes 0 0

-- `q - p`, beside the value; `none` is the result -1.
abbrev pub with_length : List ℕ → Option (ℕ × List ℕ) → Option (ℕ × ℕ)
with_length bytes none = none
with_length bytes (some (value, rest)) = some (length bytes - length rest, value)

unfoldable pub get_varint32 : List ℕ → Option (ℕ × ℕ)
unfolding get_varint32_ptr
get_varint32 bytes = with_length bytes (get_varint32_ptr bytes)

unfoldable pub get_varint64 : List ℕ → Option (ℕ × ℕ)
unfolding get_varint64_ptr
get_varint64 bytes = with_length bytes (get_varint64_ptr bytes)
