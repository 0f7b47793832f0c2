-- ===== src/Coding/Runs.antt =====
-- Runs of the coders on concrete bytes, and the theorems at concrete inputs.
use kingdb.Prelude.{
  ◌^◌, ◌<◌, ◌≤◌, ℕ, ◌≡◌, ◌≢◌, refl, arith, some, none, List, [], ◌∷◌, ◌++◌, length,
}
use kingdb.Samples.{x86, sparc}
use kingdb.Coding.Fixed.{
  get_fixed32-encode_fixed32, get_fixed64-encode_fixed64, get_fixed32_other_host,
}
use kingdb.Coding.RoundTrip.{get_varint32-encode_varint32, get_varint64-encode_varint64}
use kingdb.Coding.Decode.{get_varint64_bounds, get_varint64_truncated}
use kingdb.Coding.{
  encode_fixed64, get_fixed64, encode_fixed32, get_fixed32, encode_varint32, encode_varint64,
  varint_length, get_varint32, get_varint64,
}

fixed32_bytes : encode_fixed32 x86 0x01020384 ≡ 0x84 ∷ 0x03 ∷ 0x02 ∷ 0x01 ∷ []
unfolding encode_fixed32
fixed32_bytes = refl

-- The bytes in the memory of a big-endian host.
fixed32_sparc : encode_fixed32 sparc 0x01020384 ≡ 0x01 ∷ 0x02 ∷ 0x03 ∷ 0x84 ∷ []
unfolding encode_fixed32
fixed32_sparc = refl

varint32_bytes : encode_varint32 300 ≡ 0xac ∷ 0x02 ∷ []
unfolding encode_varint32
varint32_bytes = refl

varint64_bytes : encode_varint64 300 ≡ 0xac ∷ 0x02 ∷ []
unfolding encode_varint64
varint64_bytes = refl

varint64_read : get_varint64 (0xac ∷ 0x02 ∷ 7 ∷ []) ≡ some (2, 300)
unfolding get_varint64
varint64_read = refl

varint32_read : get_varint32 (0xac ∷ []) ≡ none
unfolding get_varint32
varint32_read = refl

varint_length_max : varint_length 0xffff_ffff_ffff_ffff ≡ 10
unfolding varint_length
varint_length_max = refl

get_fixed32-encode_fixed32_example :
    get_fixed32 x86 (encode_fixed32 x86 0xdeadbeef ++ (7 ∷ [])) ≡ some 0xdeadbeef
get_fixed32-encode_fixed32_example =
    get_fixed32-encode_fixed32 x86 0xdeadbeef (7 ∷ []) (omega arith)

get_fixed64-encode_fixed64_example :
    get_fixed64 sparc (encode_fixed64 sparc 0x0123456789abcdef ++ (7 ∷ []))
    ≡ some 0x0123456789abcdef
get_fixed64-encode_fixed64_example =
    get_fixed64-encode_fixed64 sparc 0x0123456789abcdef (7 ∷ []) (omega arith)

get_fixed32_other_host_example :
    get_fixed32 x86 (encode_fixed32 sparc 0x01020384 ++ []) ≢ some 0x01020384
get_fixed32_other_host_example =
    get_fixed32_other_host sparc x86 0x01020384 [] refl refl (omega arith) (omega arith)

get_varint32-encode_varint32_example :
    get_varint32 (encode_varint32 300000 ++ (7 ∷ []))
    ≡ some (length (encode_varint32 300000), 300000)
get_varint32-encode_varint32_example = get_varint32-encode_varint32 300000 (7 ∷ []) (omega arith)

get_varint64-encode_varint64_example :
    get_varint64 (encode_varint64 (2 ^ 63) ++ (7 ∷ []))
    ≡ some (length (encode_varint64 (2 ^ 63)), 2 ^ 63)
get_varint64-encode_varint64_example = get_varint64-encode_varint64 (2 ^ 63) (7 ∷ []) (omega arith)

abbrev two_bytes : List ℕ
two_bytes = 0xac ∷ 0x02 ∷ 7 ∷ []

get_varint64_bounds_example : (300 < 2 ^ 64) × (1 ≤ 2) × (2 ≤ 10) × (2 ≤ length two_bytes)
get_varint64_bounds_example = get_varint64_bounds two_bytes {n = 2} {v = 300} varint64_read

get_varint64_truncated_example : get_varint64 (0xac ∷ []) ≡ none
get_varint64_truncated_example =
    get_varint64_truncated 300 0x02 (0xac ∷ []) [] (omega arith) varint64_bytes
