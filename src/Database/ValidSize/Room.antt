-- ===== src/Database/ValidSize/Room.antt =====
-- PutPartValidSize: the parts of a value stay within the space that was allocated for it.
use kingdb.Prelude.{
  ℕ, ◌+◌, ◌-◌, ◌%◌, ◌^◌, ◌<◌, ◌≤◌, ◌≡◌, arith, Bool, true, false, length, ltb, ◌==◌, if◌then◌else◌,
  le→ltb,
}
use native.Mathlib.Nat.{mod-eq_of_lt}
use kingdb.Reader.{Read, done}
use kingdb.Format.Entry.{calculate_padding_size}
use kingdb.ResourceManager.{sub64}
use kingdb.Compressor.{reset_thread_local_storage}
use kingdb.Database.ValidSize.{Writing, Submission, start_part, reset_compressor}

-- Where the next part of the value goes.
unfoldable pub position : Writing → ℕ
position w = if w.ts_compression_enabled == 0 then w.ts_offset else w.compressor.ts_compress

-- The header of the frame that may still have to say that compression is disabled.
unfoldable pub headroom : Writing → ℕ
headroom w = if w.ts_compression_enabled == 0 then 0 else 8

unfoldable pub space : ℕ → ℕ
space size_value = size_value + calculate_padding_size size_value

-- What is left of the value, from an offset on, still fits as raw data.
abbrev pub Fits : ℕ → ℕ → Writing → Type 0
Fits size_value offset w =
    (w.ts_compression_enabled ≤ 1)
    × (position w + (size_value - offset) + headroom w ≤ space size_value)

-- What is submitted for a part: it starts where the part before it ended, it lies in the space of the
-- value, and what is left of the value still fits behind it.
abbrev pub Accepts : ℕ → ℕ → Writing → Read Submission × Writing → Type 0
Accepts size_value offset before (r, after) =
    (sub : Submission) × ((r ≡ done sub)
      × ((sub.offset_chunk ≡ position before)
          × ((position after ≡ sub.offset_chunk + length sub.chunk)
              × ((sub.offset_chunk + length sub.chunk ≤ space size_value)
                  × Fits size_value offset after))))

pub not_ltb : (a b : ℕ) → ltb a b ≡ false → b ≤ a
not_ltb a b t = ground arith

pub not_above : (a b : ℕ) → b ≤ a → a < 2 ^ 64 → ltb (a % 2 ^ 64) (b % 2 ^ 64) ≡ false
not_above a b h small = rw (mod-eq_of_lt small, mod-eq_of_lt (bounded small h)) (le→ltb a b h)
  where
    bounded : a < 2 ^ 64 → b ≤ a → b < 2 ^ 64
    bounded h k = omega arith

-- Without a wrap-around, the test of the code says what the comment of the compressor says.
pub room_left :
    (position chunk frame padding size_value offset : ℕ)
    → chunk + offset ≤ size_value
    → size_value < 2 ^ 62
    → padding ≤ 2 ^ 62
    → frame ≤ chunk + 8
    → position + (size_value - offset) + 8 ≤ size_value + padding
    → (sub64 (sub64 size_value offset) chunk + 8) % 2 ^ 64
      ≤ sub64 (sub64 ((size_value + padding) % 2 ^ 64) position) frame
    → position + frame + (size_value - (chunk + offset)) + 8 ≤ size_value + padding
room_left position chunk frame padding size_value offset within small p small_frame h t =
    omega arith

-- What the state of the thread is for a part.
unfoldable pub at_part : Bool → Writing → Writing
at_part is_first_part w = reset_compressor is_first_part (start_part is_first_part w)

padding_big : (n : ℕ) → n < 2 ^ 63 → 8 ≤ calculate_padding_size n
unfolding calculate_padding_size
padding_big n h = omega arith

pub first-Fits :
    (size_value : ℕ) (w : Writing) → size_value < 2 ^ 63 → Fits size_value 0 (at_part true w)
unfolding position headroom space at_part reset_thread_local_storage
first-Fits size_value w h = (omega arith, omega (arith, padding_big size_value h))
