-- ===== src/Reader/Bounds.antt =====
-- Which reads stay within the buffer.
use kingdb.Prelude.{
  ℕ, ◌≤◌, ◌≡◌, refl, sym, ap, arith, Option, none, some, List, [], ◌∷◌, length, drop, length-drop,
}
use kingdb.Prelude.Int.{sub_front}
use mathlib.Core.Path.{subst}
use kingdb.Coding.{Platform, get_fixed32, get_fixed64, get_varint32, get_varint64}
use kingdb.Coding.Decode.{get_varint64_bounds, get_varint32-length}
use kingdb.Reader.{
  Cursor, Read, done, failed, out_of_bounds, Reader, ◌>>=◌, advance, read_uint8, read_fixed32,
  read_fixed64, varint, read_varint32, read_varint64,
}
use kingdb.Reader.Laws.{over, read_varint-over}

-- The read did not leave the buffer, the count still is the length of what is left, and that is `n`
-- bytes at most.
abbrev pub InBounds : {A : Type 0} → ℕ → Read (A × Cursor) → Type 0
InBounds n (done (a, c)) = (c ≡ over c.ptr) × (length c.ptr ≤ n)
InBounds n (failed s) = Unit
InBounds n out_of_bounds = ⊥

InBounds-cases :
    {A B : Type 0} (n : ℕ) (r : Read (A × Cursor)) (f : A → Reader B)
    → InBounds n r
    → ((a : A) (bytes : List ℕ)
        → length bytes ≤ n
        → r ≡ done (a, over bytes)
        → InBounds n (f a (over bytes)))
    → InBounds n
        (elim r [ done (a, c') ↦ f a c' | failed s ↦ failed s | out_of_bounds ↦ out_of_bounds ])
InBounds-cases n (done (a, c)) f (h, l) k =
    subst (λ x. InBounds n (f a x)) (sym h) (k a c.ptr l (ap (λ x. done (a, x)) h))
InBounds-cases n (failed s) f h k = tt
InBounds-cases n out_of_bounds f h k = h

pub InBounds-bind :
    {A B : Type 0} (n : ℕ) (m : Reader A) (f : A → Reader B) (c : Cursor)
    → InBounds n (m c)
    → ((a : A) (bytes : List ℕ)
        → length bytes ≤ n
        → m c ≡ done (a, over bytes)
        → InBounds n (f a (over bytes)))
    → InBounds n ((m >>= f) c)
InBounds-bind n m f c = InBounds-cases n (m c) f

advance-over :
    (n : ℕ) (bytes : List ℕ) → n ≤ length bytes → advance n (over bytes) ≡ over (drop n bytes)
advance-over n bytes h =
    ap (λ s. record { ptr = drop n bytes; size = s })
      (sub_front (length bytes) n (length (drop n bytes)) (omega (arith, length-drop n bytes)))

advanced :
    (n k : ℕ) (bytes : List ℕ)
    → k ≤ length bytes
    → length bytes ≤ n
    → (advance k (over bytes) ≡ over (drop k bytes)) × (length (drop k bytes) ≤ n)
advanced n k bytes h l = (advance-over k bytes h, omega (arith, length-drop k bytes))

pub read_uint8-InBounds :
    (n : ℕ) (bytes : List ℕ)
    → 1 ≤ length bytes
    → length bytes ≤ n
    → InBounds n (read_uint8 (over bytes))
unfolding read_uint8
read_uint8-InBounds n [] h l = absurd (omega arith)
read_uint8-InBounds n (b ∷ bs) h l = advanced n 1 (b ∷ bs) h l

pub read_fixed32-InBounds :
    (p : Platform) (n : ℕ) (bytes : List ℕ)
    → 4 ≤ length bytes
    → length bytes ≤ n
    → InBounds n (read_fixed32 p (over bytes))
unfolding read_fixed32 get_fixed32
read_fixed32-InBounds p n (b0 ∷ b1 ∷ b2 ∷ b3 ∷ rest) h l =
    advanced n 4 (b0 ∷ b1 ∷ b2 ∷ b3 ∷ rest) h l
read_fixed32-InBounds p n _ h l = absurd (omega arith)

pub read_fixed64-InBounds :
    (p : Platform) (n : ℕ) (bytes : List ℕ)
    → 8 ≤ length bytes
    → length bytes ≤ n
    → InBounds n (read_fixed64 p (over bytes))
unfolding read_fixed64 get_fixed64
read_fixed64-InBounds p n (b0 ∷ b1 ∷ b2 ∷ b3 ∷ b4 ∷ b5 ∷ b6 ∷ b7 ∷ rest) h l =
    advanced n 8 (b0 ∷ b1 ∷ b2 ∷ b3 ∷ b4 ∷ b5 ∷ b6 ∷ b7 ∷ rest) h l
read_fixed64-InBounds p n _ h l = absurd (omega arith)

varint-InBounds :
    (n : ℕ) (o : Option (ℕ × ℕ)) (bytes : List ℕ)
    → length bytes ≤ n
    → ((k v : ℕ) → o ≡ some (k, v) → k ≤ length bytes)
    → InBounds n (varint o (over bytes))
varint-InBounds n none bytes l h = tt
varint-InBounds n (some (k, v)) bytes l h = advanced n k bytes (h k v refl) l

pub read_varint32-InBounds :
    (n : ℕ) (bytes : List ℕ) → length bytes ≤ n → InBounds n (read_varint32 (over bytes))
unfolding read_varint32
read_varint32-InBounds n bytes l =
    subst (InBounds n) (sym (read_varint-over get_varint32 28 bytes))
      (varint-InBounds n (get_varint32 bytes) bytes l (λ k v e. get_varint32-length bytes e))

pub read_varint64-InBounds :
    (n : ℕ) (bytes : List ℕ) → length bytes ≤ n → InBounds n (read_varint64 (over bytes))
unfolding read_varint64
read_varint64-InBounds n bytes l =
    subst (InBounds n) (sym (read_varint-over get_varint64 63 bytes))
      (varint-InBounds n (get_varint64 bytes) bytes l (λ k v e. (get_varint64_bounds bytes e).3))
