-- ===== src/ByteArray.antt =====
-- util/byte_array.h: a window on the bytes of a shared resource.
use kingdb.Prelude.{ℕ, ◌+◌, ◌%◌, ◌^◌, Bool, ◌&&◌, List, length, take, drop, ◌==◌}
use kingdb.WriteBuffer.{same_bytes}

pub record ByteArray : Type 0 where
  pub resource : List ℕ
  pub size : ℕ
  pub size_compressed : ℕ
  pub offset : ℕ
  pub checksum : ℕ
  pub checksum_initial : ℕ

-- The constructors that take the data and its size: a copy, an owned pointer or a borrowed one hold
-- the same bytes.
abbrev pub new_byte_array : List ℕ → ByteArray
new_byte_array content = record {
  resource = content;
  size = length content;
  size_compressed = 0;
  offset = 0;
  checksum = 0;
  checksum_initial = 0;
}

-- What `data()` and `size()` give out together.
abbrev pub bytes : ByteArray → List ℕ
bytes a = take a.size (drop a.offset a.resource)

abbrev pub set_size : ℕ → ByteArray → ByteArray
set_size s a = record a { size = s }

abbrev pub set_offset : ℕ → ByteArray → ByteArray
set_offset o a = record a { offset = o }

abbrev pub increment_offset : ℕ → ByteArray → ByteArray
increment_offset inc a = record a { offset = (a.offset + inc) % 2 ^ 64 }

-- `operator ==`
unfoldable pub equal : ByteArray → ByteArray → Bool
unfolding same_bytes
equal a b = a.size == b.size && same_bytes (bytes a) (bytes b)
