-- ===== src/Coding/Decode.antt =====
-- GetVarint32 and GetVarint64 on any input, written by an encoder or not.
use kingdb.Prelude.{
  ℕ, zero, suc, ◌+◌, ◌-◌, ◌*◌, ◌%◌, ◌^◌, ◌≤◌, ◌<◌, bit_or, bit_and, ◌≡◌, sym, ◌∙◌, arith, Option,
  Option-cases, append-nil, inl, inr, none, some, List, [], ◌∷◌, ◌++◌, length, length-append, All,
}
use kingdb.Prelude.Bits.{bit_or-lt}
use kingdb.Coding.{
  IsByte, shl, encode_varint64, with_length, get_varint_loop, get_varint64_ptr, get_varint32_ptr,
  get_varint32, get_varint64,
}
use kingdb.Coding.RoundTrip.{get_varint64_ptr-encode_varint64, get_varint32_ptr-fallback}
use native.Mathlib.Nat.{mod-lt, one-le-pow}

or_fits : (w x b s : ℕ) → x < 2 ^ w → bit_or x (shl w b s) < 2 ^ w
unfolding shl
or_fits w x b s h = bit_or-lt w x (b * 2 ^ s % 2 ^ w) h (mod-lt _ (one-le-pow w 2 (omega arith)))

-- A number that is read fits its width, some bytes are taken, and at most `n` if the shift passes
-- `top` after `n` of them.
get_varint_loop_bounds :
    (w top : ℕ) (bytes : List ℕ) (n s acc v : ℕ) (rest : List ℕ)
    → get_varint_loop w top bytes s acc ≡ some (v, rest)
    → acc < 2 ^ w
    → top < s + 7 * n
    → (v < 2 ^ w) × (length rest < length bytes) × (length bytes ≤ length rest + n)
unfolding get_varint_loop
get_varint_loop_bounds w top [] n s acc v rest e h room = cc
get_varint_loop_bounds w top (b ∷ bs) zero s acc v rest e h room = ground arith
get_varint_loop_bounds w top (b ∷ bs) (suc n) s acc v rest e h room = ground (
  arith,
  or_fits w acc b s h,
  or_fits w acc (bit_and b 127) s h,
  get_varint_loop_bounds w top bs n (s + 7) (bit_or acc (shl w (bit_and b 127) s)) v rest,
)

-- Bytes behind a number that was read do not change it.
get_varint_loop-append :
    (w top : ℕ) (bytes more : List ℕ) (s acc v : ℕ) (rest : List ℕ)
    → get_varint_loop w top bytes s acc ≡ some (v, rest)
    → get_varint_loop w top (bytes ++ more) s acc ≡ some (v, rest ++ more)
unfolding get_varint_loop
get_varint_loop-append w top [] more s acc v rest e = cc
get_varint_loop-append w top (b ∷ bs) more s acc v rest e = ground (
  arith,
  get_varint_loop-append w top bs more (s + 7) (bit_or acc (shl w (bit_and b 127) s)) v rest,
)

with_length_cases :
    (bytes : List ℕ) (o : Option (ℕ × List ℕ)) {n v : ℕ}
    → with_length bytes o ≡ some (n, v)
    → (rest : List ℕ) × (o ≡ some (v, rest)) × (length bytes - length rest ≡ n)
with_length_cases bytes none e = cc
with_length_cases bytes (some (v, rest)) e = (rest, ground arith, ground arith)

-- On any bytes: a number that GetVarint64 returns fits 64 bits, and takes 1 to 10 of the bytes that
-- are there.
pub get_varint64_bounds :
    (bytes : List ℕ) {n v : ℕ}
    → get_varint64 bytes ≡ some (n, v)
    → (v < 2 ^ 64) × (1 ≤ n) × (n ≤ 10) × (n ≤ length bytes)
unfolding get_varint64
get_varint64_bounds bytes {n} {v} e =
    let (rest, r, l) = with_length_cases bytes (get_varint64_ptr bytes) e in
    omega (arith, get_varint_loop_bounds 64 63 bytes 10 0 0 v rest r (omega arith) (omega arith))

-- On any bytes: a number that GetVarint32 returns fits 32 bits, and takes 1 to 5 of the bytes that
-- are there.
pub get_varint32_bounds :
    (bytes : List ℕ) {n v : ℕ}
    → All IsByte bytes
    → get_varint32 bytes ≡ some (n, v)
    → (v < 2 ^ 32) × (1 ≤ n) × (n ≤ 5) × (n ≤ length bytes)
unfolding get_varint32
get_varint32_bounds bytes {n} {v} b e =
    let (rest, r, l) = with_length_cases bytes (get_varint32_ptr bytes) e in
    omega (
      arith,
      get_varint_loop_bounds 32 28 bytes 5 0 0 v rest (sym (get_varint32_ptr-fallback bytes b) ∙ r)
          (omega arith) (omega arith),
    )

-- GetVarint32 takes no more bytes than there are.
pub get_varint32-length :
    (bytes : List ℕ) {n v : ℕ} → get_varint32 bytes ≡ some (n, v) → n ≤ length bytes
unfolding get_varint32
get_varint32-length bytes e =
    let (rest, r, l) = with_length_cases bytes (get_varint32_ptr bytes) e in omega arith

-- GetVarint64 fails on every proper prefix of what EncodeVarint64 wrote.
pub get_varint64_truncated :
    (v x : ℕ) (front back : List ℕ)
    → v < 2 ^ 64
    → encode_varint64 v ≡ front ++ (x ∷ back)
    → get_varint64 front ≡ none
unfolding get_varint64
get_varint64_truncated v x front back h e = elim (Option-cases (get_varint64_ptr front)) [
  | inl r ↦ rw r
  | inr ((u, rest), r) ↦ absurd (
      ground (
        arith,
        length-append rest (x ∷ back),
        get_varint_loop-append 64 63 front (x ∷ back) 0 0 u rest r,
        rw (append-nil, e) at (get_varint64_ptr-encode_varint64 v [] h),
      ))
]
