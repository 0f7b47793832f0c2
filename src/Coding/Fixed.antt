-- ===== src/Coding/Fixed.antt =====
-- EncodeFixed32, EncodeFixed64, GetFixed32 and GetFixed64 of algorithm/coding.cc: what is written
-- and that it is read back.
use kingdb.Prelude.{
  ℕ, zero, suc, ◌+◌, ◌*◌, ◌/◌, ◌%◌, ◌^◌, ◌<◌, ◌≡◌, ◌≢◌, refl, ap, inl, inr, arith, true, false,
  none, some, Bool-cases, List, ◌++◌, length,
}
use kingdb.Coding.{
  Platform, last_bytes, to_memory, of_memory, encode_fixed32, encode_fixed64, get_fixed32,
  get_fixed64,
}

length-last_bytes : (p : Platform) (n k v : ℕ) → length (last_bytes p n k v) ≡ k
unfolding last_bytes
length-last_bytes p n zero v = refl
length-last_bytes p n (suc k) v = ap suc (length-last_bytes p n k v)

pub length-to_memory : (p : Platform) (n v : ℕ) → length (to_memory p n v) ≡ n
unfolding to_memory
length-to_memory p n v = length-last_bytes p n n v

-- kLittleEndian is true on every host, so the bytes are those of the host's memory.
pub encode_fixed32-to_memory : (p : Platform) (v : ℕ) → encode_fixed32 p v ≡ to_memory p 4 v
unfolding encode_fixed32
encode_fixed32-to_memory p v = refl

pub encode_fixed64-to_memory : (p : Platform) (v : ℕ) → encode_fixed64 p v ≡ to_memory p 8 v
unfolding encode_fixed64
encode_fixed64-to_memory p v = refl

of_memory_four : (p : Platform) (v : ℕ) → v < 2 ^ 32 → of_memory p (to_memory p 4 v) ≡ v
unfolding of_memory to_memory
of_memory_four p v h = elim (Bool-cases p.little_endian) [
  | inl e ↦ rw e (omega (arith, h))
  | inr e ↦ rw e (omega (arith, h))
]

of_memory_eight : (p : Platform) (v : ℕ) → v < 2 ^ 64 → of_memory p (to_memory p 8 v) ≡ v
unfolding of_memory to_memory
of_memory_eight p v h = elim (Bool-cases p.little_endian) [
  | inl e ↦ rw e (omega (arith, h))
  | inr e ↦ rw e (omega (arith, h))
]

-- GetFixed32 reads back the number below 2 ^ 32 that EncodeFixed32 wrote, whatever follows it, on a
-- host of either byte order.
pub get_fixed32-encode_fixed32 :
    (p : Platform) (v : ℕ) (rest : List ℕ)
    → v < 2 ^ 32
    → get_fixed32 p (encode_fixed32 p v ++ rest) ≡ some v
unfolding get_fixed32 encode_fixed32 to_memory
get_fixed32-encode_fixed32 p v rest h = ap some (of_memory_four p v h)

-- GetFixed64 reads back the number below 2 ^ 64 that EncodeFixed64 wrote, whatever follows it, on a
-- host of either byte order.
pub get_fixed64-encode_fixed64 :
    (p : Platform) (v : ℕ) (rest : List ℕ)
    → v < 2 ^ 64
    → get_fixed64 p (encode_fixed64 p v ++ rest) ≡ some v
unfolding get_fixed64 encode_fixed64 to_memory
get_fixed64-encode_fixed64 p v rest h = ap some (of_memory_eight p v h)

of_some : {a b : ℕ} → some a ≡ some b → a ≡ b
of_some {a} e = ap (λ o. elim o [ none ↦ a | some n ↦ n ]) e

-- getEndianness says that every host is little-endian, so EncodeFixed32 copies the memory of a
-- big-endian host too: a little-endian host does not read back the number below 2 ^ 32 that it wrote,
-- if the lowest and the highest byte of the number differ.
pub get_fixed32_other_host :
    (writer reader : Platform) (v : ℕ) (rest : List ℕ)
    → writer.little_endian ≡ false
    → reader.little_endian ≡ true
    → v < 2 ^ 32
    → v % 256 ≢ v / 2 ^ 24
    → get_fixed32 reader (encode_fixed32 writer v ++ rest) ≢ some v
unfolding get_fixed32 encode_fixed32 to_memory of_memory
get_fixed32_other_host writer reader v rest w r h differ =
    rw (w, r) (λ e. differ (lowest v h (of_some e)))
  where
    lowest :
        (v : ℕ)
        → v < 2 ^ 32
        → v / 256 / 256 / 256 % 256
            + 256 * (v / 256 / 256 % 256 + 256 * (v / 256 % 256 + 256 * (v % 256 + 256 * 0)))
          ≡ v
        → v % 256 ≡ v / 2 ^ 24
    lowest v h e = omega (arith, e)
