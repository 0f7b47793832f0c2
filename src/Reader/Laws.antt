-- ===== src/Reader/Laws.antt =====
-- Reading back, one after the other, the fields that were written one after the other.
use kingdb.Prelude.{
  Option, ◌∙◌, ltb, le→ltb, false, ℕ, ◌^◌, ◌<◌, ◌≡◌, refl, ap, arith, List, [], ◌∷◌, ◌++◌, length,
  take, length-append, drop-append, take-append, append-nil,
}
use kingdb.Prelude.Int.{pos, sub_front}
use kingdb.Coding.{
  Platform, encode_fixed32, encode_fixed64, encode_varint32, encode_varint64, get_varint32,
  get_varint64,
}
use kingdb.Coding.Fixed.{
  get_fixed32-encode_fixed32, get_fixed64-encode_fixed64, length-to_memory,
  encode_fixed32-to_memory, encode_fixed64-to_memory,
}
use kingdb.Coding.RoundTrip.{get_varint32-encode_varint32, get_varint64-encode_varint64}
use kingdb.Reader.{
  decode_within, read_varint, varint, failed, Cursor, done, out_of_bounds, Reader, ◌>>=◌, start,
  advance, read_uint8, read_fixed32, read_fixed64, read_varint32, read_varint64,
}

-- A cursor whose count is the length of what is left.
abbrev pub over : List ℕ → Cursor
over bytes = record { ptr = bytes; size = pos (length bytes) }

pub start-over : (buffer : List ℕ) → length buffer < 2 ^ 31 → start buffer ≡ over buffer
start-over buffer h = ground arith

pub >>=-done :
    {A B : Type 0} (m : Reader A) (f : A → Reader B) (c : Cursor) {a : A} {c' : Cursor}
    → m c ≡ done (a, c')
    → (m >>= f) c ≡ f a c'
>>=-done m f c e = rw (e, ◌>>=◌)

pub >>=-out_of_bounds :
    {A B : Type 0} (m : Reader A) (f : A → Reader B) (c : Cursor)
    → m c ≡ out_of_bounds
    → (m >>= f) c ≡ out_of_bounds
>>=-out_of_bounds m f c e = rw (e, ◌>>=◌)

advance_front :
    (n : ℕ) (front rest : List ℕ) → length front ≡ n → advance n (over (front ++ rest)) ≡ over rest
advance_front n front rest h = rw (drop-append n front rest h) (
    ap (λ s. record { ptr = rest; size = s })
      (sub_front (length (front ++ rest)) n (length rest)
        (omega (arith, length-append front rest))))

pub take_all : (bytes : List ℕ) → take (length bytes) bytes ≡ bytes
take_all bytes = rw (append-nil) at (take-append (length bytes) bytes [] refl)

pub not_behind : (bytes : List ℕ) → ltb (length bytes) (length bytes) ≡ false
not_behind bytes = le→ltb (length bytes) (length bytes) (omega arith)

-- Where the count is the length of what is left, the limit is the end of the buffer.
decode_within-over :
    (decode : List ℕ → Option (ℕ × ℕ)) (top : ℕ) (bytes : List ℕ)
    → decode_within decode top (pos (length bytes)) bytes ≡ done (decode bytes)
decode_within-over decode top bytes =
    rw (not_behind bytes) (ap (λ b. done (decode b)) (take_all bytes))

pub read_varint-over :
    (decode : List ℕ → Option (ℕ × ℕ)) (top : ℕ) (bytes : List ℕ)
    → read_varint decode top (over bytes) ≡ varint (decode bytes) (over bytes)
read_varint-over decode top bytes =
    ap
      (λ r. elim r [
        | done o ↦ varint o (over bytes)
        | failed s ↦ failed s
        | out_of_bounds ↦ out_of_bounds
      ])
      (decode_within-over decode top bytes)

pub read_uint8-over : (b : ℕ) (rest : List ℕ) → read_uint8 (over (b ∷ rest)) ≡ done (b, over rest)
unfolding read_uint8
read_uint8-over b rest = ap (λ c. done (b, c)) (advance_front 1 (b ∷ []) rest refl)

module _ (p : Platform) (v : ℕ) (rest : List ℕ) where
  pub read_fixed32-over :
      v < 2 ^ 32 → read_fixed32 p (over (encode_fixed32 p v ++ rest)) ≡ done (v, over rest)
  unfolding read_fixed32
  read_fixed32-over h = rw (get_fixed32-encode_fixed32 p v rest h) (
      ap (λ c. done (v, c))
        (advance_front 4 (encode_fixed32 p v) rest
          (rw (encode_fixed32-to_memory p v) (length-to_memory p 4 v))))

  pub read_fixed64-over :
      v < 2 ^ 64 → read_fixed64 p (over (encode_fixed64 p v ++ rest)) ≡ done (v, over rest)
  unfolding read_fixed64
  read_fixed64-over h = rw (get_fixed64-encode_fixed64 p v rest h) (
      ap (λ c. done (v, c))
        (advance_front 8 (encode_fixed64 p v) rest
          (rw (encode_fixed64-to_memory p v) (length-to_memory p 8 v))))

module _ (v : ℕ) (rest : List ℕ) where
  pub read_varint32-over :
      v < 2 ^ 32 → read_varint32 (over (encode_varint32 v ++ rest)) ≡ done (v, over rest)
  unfolding read_varint32
  read_varint32-over h =
      read_varint-over get_varint32 28 (encode_varint32 v ++ rest)
      ∙ rw (get_varint32-encode_varint32 v rest h)
          (ap (λ c. done (v, c)) (advance_front _ (encode_varint32 v) rest refl))

  pub read_varint64-over :
      v < 2 ^ 64 → read_varint64 (over (encode_varint64 v ++ rest)) ≡ done (v, over rest)
  unfolding read_varint64
  read_varint64-over h =
      read_varint-over get_varint64 63 (encode_varint64 v ++ rest)
      ∙ rw (get_varint64-encode_varint64 v rest h)
          (ap (λ c. done (v, c)) (advance_front _ (encode_varint64 v) rest refl))
