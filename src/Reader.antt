-- ===== src/Reader.antt =====
-- The way the DecodeFrom functions of storage/format.h walk a buffer: a pointer that moves on and
-- a count `size` of the bytes left, kept in an `int`. The pointer is the list of the bytes from it
-- to the end of the buffer. A load past that end is `out_of_bounds`.
pub mod Laws
pub mod Bounds
pub mod Fields
use kingdb.Prelude.{
  ℕ, ◌+◌, ◌-◌, ◌%◌, ◌^◌, bit_and, Bool, true, false, not, ◌&&◌, ltb, leb, ◌==◌, if◌then◌else◌,
  Option, none, some, List, [], ◌∷◌, length, take, drop,
}
use kingdb.Prelude.Int.{ℤ, pos, negsuc, ◌-ℤ◌, int32}
use kingdb.Coding.{Platform, get_fixed32, get_fixed64, get_varint32, get_varint64}
use kingdb.Status.{Status, status_io_error}

pub record Cursor : Type 0 where
  pub ptr : List ℕ
  pub size : ℤ

pub data Read {ℓ} (A : Type ℓ) : Type ℓ where
  done : A → Read A
  failed : Status → Read A
  out_of_bounds : Read A

abbrev pub Reader : Type 0 → Type 0
Reader A = Cursor → Read (A × Cursor)

infixl 5 ◌>>=◌
abbrev pub ◌>>=◌ : {A B : Type 0} → Reader A → (A → Reader B) → Reader B
◌>>=◌ m f c = elim (m c) [
  | done (a, c') ↦ f a c'
  | failed s ↦ failed s
  | out_of_bounds ↦ out_of_bounds
]

abbrev pub pure : {A : Type 0} → A → Reader A
pure a c = done (a, c)

abbrev pub fail : {A : Type 0} → Status → Reader A
fail s c = failed s

abbrev pub decoding_error : Status
decoding_error = status_io_error "Decoding error"

abbrev pub start : List ℕ → Cursor
start buffer = record { ptr = buffer; size = int32 (length buffer) }

-- `ptr += n; size -= n`
abbrev pub advance : ℕ → Cursor → Cursor
advance n c = record { ptr = drop n c.ptr; size = c.size -ℤ n }

-- The bytes from `ptr` to `ptr + size`, as far as the buffer has them. A negative `size` becomes a `uint64_t` that puts the limit
-- before the pointer.
abbrev pub window : ℤ → List ℕ → List ℕ
window (pos n) bytes = take n bytes
window (negsuc n) bytes = []

unfoldable pub read_uint8 : Reader ℕ
read_uint8 c = elim c.ptr [ [] ↦ out_of_bounds | b ∷ rest ↦ done (b, advance 1 c) ]

-- A load of `n` bytes, checked against nothing.
abbrev pub load : ℕ → Option ℕ → Reader ℕ
load n none c = out_of_bounds
load n (some v) c = done (v, advance n c)

unfoldable pub read_fixed32 : Platform → Reader ℕ
read_fixed32 p c = load 4 (get_fixed32 p c.ptr) c

unfoldable pub read_fixed64 : Platform → Reader ℕ
read_fixed64 p c = load 8 (get_fixed64 p c.ptr) c

-- Whether the limit `ptr + size` lies behind the buffer.
abbrev pub limit_behind : ℤ → List ℕ → Bool
limit_behind (pos n) bytes = ltb (length bytes) n
limit_behind (negsuc n) bytes = false

-- Whether the loop of GetVarint32Ptr and GetVarint64Ptr, for shifts up to `top`, goes on to the byte
-- behind the bytes that there are.
unfoldable pub loads_behind : ℕ → ℕ → List ℕ → Bool
loads_behind top shift [] = leb shift top
loads_behind top shift (byte ∷ rest) =
    leb shift top && not (bit_and byte 128 == 0) && loads_behind top (shift + 7) rest

-- `if (length == -1) return Status::IOError("Decoding error")`
abbrev pub varint : Option (ℕ × ℕ) → Reader ℕ
varint none c = failed decoding_error
varint (some (n, v)) c = done (v, advance n c)

-- A decoder of variable width, for shifts up to `top`, on the bytes from `ptr` to `ptr + size`.
abbrev pub decode_within : (List ℕ → Option (ℕ × ℕ)) → ℕ → ℤ → List ℕ → Read (Option (ℕ × ℕ))
decode_within decode top size bytes =
    if limit_behind size bytes && loads_behind top 0 bytes
    then out_of_bounds
    else done (decode (window size bytes))

abbrev pub read_varint : (List ℕ → Option (ℕ × ℕ)) → ℕ → Reader ℕ
read_varint decode top c = elim (decode_within decode top c.size c.ptr) [
  | done o ↦ varint o c
  | failed s ↦ failed s
  | out_of_bounds ↦ out_of_bounds
]

unfoldable pub read_varint32 : Reader ℕ
unfolding loads_behind
read_varint32 c = read_varint get_varint32 28 c

unfoldable pub read_varint64 : Reader ℕ
unfolding loads_behind
read_varint64 c = read_varint get_varint64 63 c

-- The `n` bytes behind a pointer that a checksum covers.
abbrev pub bytes_behind : ℕ → List ℕ → Read (List ℕ)
bytes_behind n bytes = if ltb (length bytes) n then out_of_bounds else done (take n bytes)

-- `num_bytes_max - size`, kept in a `uint32_t`.
abbrev pub bytes_read : ℕ → ℤ → ℕ
bytes_read num_bytes_max (pos s) = (num_bytes_max + 2 ^ 64 - s) % 2 ^ 32
bytes_read num_bytes_max (negsuc s) = (num_bytes_max + s + 1) % 2 ^ 32
