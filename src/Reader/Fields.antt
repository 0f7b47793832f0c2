-- ===== src/Reader/Fields.antt =====
-- Fields at fixed offsets of a buffer, as the DecodeFrom functions of storage/format.h load them.
use kingdb.Prelude.{ℕ, ◌^◌, ◌<◌, ◌≡◌, ap, Option, none, some, List, ◌++◌, drop}
use kingdb.Coding.{Platform, to_memory, get_fixed32, get_fixed64}
use kingdb.Coding.Fixed.{
  encode_fixed32-to_memory, encode_fixed64-to_memory, get_fixed32-encode_fixed32,
  get_fixed64-encode_fixed64,
}
use kingdb.Reader.{Read, done, failed, out_of_bounds}

infixl 5 ◌>>=◌
abbrev pub ◌>>=◌ : {A B : Type 0} → Read A → (A → Read B) → Read B
done a >>= f = f a
failed s >>= f = failed s
out_of_bounds >>= f = out_of_bounds

pub >>=-done : {A B : Type 0} {r : Read A} {a : A} (k : A → Read B) → r ≡ done a → (r >>= k) ≡ k a
>>=-done k e = ap (λ r. r >>= k) e

abbrev pub loaded : {A : Type 0} → Option A → Read A
loaded none = out_of_bounds
loaded (some v) = done v

-- `GetFixed32(buffer_in + offset, ...)`
unfoldable pub field32 : Platform → List ℕ → ℕ → Read ℕ
field32 p buffer offset = loaded (get_fixed32 p (drop offset buffer))

unfoldable pub field64 : Platform → List ℕ → ℕ → Read ℕ
field64 p buffer offset = loaded (get_fixed64 p (drop offset buffer))

module _ (p : Platform) (buffer : List ℕ) (offset v : ℕ) (rest : List ℕ) where
  pub field32_at :
      drop offset buffer ≡ to_memory p 4 v ++ rest → v < 2 ^ 32 → field32 p buffer offset ≡ done v
  unfolding field32
  field32_at e h = rw (e, ← encode_fixed32-to_memory p v, get_fixed32-encode_fixed32 p v rest h)

  pub field64_at :
      drop offset buffer ≡ to_memory p 8 v ++ rest → v < 2 ^ 64 → field64 p buffer offset ≡ done v
  unfolding field64
  field64_at e h = rw (e, ← encode_fixed64-to_memory p v, get_fixed64-encode_fixed64 p v rest h)
