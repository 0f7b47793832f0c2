-- ===== src/Order.antt =====
-- util/order.h: a part of an entry on its way to the storage engine. Keys and chunks are the lists of
-- their bytes.
use kingdb.Prelude.{ℕ, ◌+◌, ◌%◌, ◌^◌, Bool, not, ◌&&◌, ◌||◌, List, length, ◌==◌}
use kingdb.Options.{WriteOptions}

pub data OrderType : Type 0 where
  put delete : OrderType

pub record Order : Type 0 where
  pub tid : ℕ
  pub write_options : WriteOptions
  pub type : OrderType
  pub key : List ℕ
  pub chunk : List ℕ
  pub offset_chunk : ℕ
  pub size_value : ℕ
  pub size_value_compressed : ℕ
  pub crc32 : ℕ
  pub is_large : Bool

unfoldable pub is_first_part : Order → Bool
is_first_part o = o.offset_chunk == 0

unfoldable pub is_middle_or_last_part : Order → Bool
unfolding is_first_part
is_middle_or_last_part o = not (is_first_part o)

-- The end of the chunk in its value, in 64 bits.
abbrev pub chunk_end : Order → ℕ
chunk_end o = (length o.chunk + o.offset_chunk) % 2 ^ 64

unfoldable pub is_last_part : Order → Bool
is_last_part o =
    (o.size_value_compressed == 0 && chunk_end o == o.size_value)
    || (not (o.size_value_compressed == 0) && chunk_end o == o.size_value_compressed)

unfoldable pub is_self_contained : Order → Bool
unfolding is_first_part is_last_part
is_self_contained o = is_first_part o && is_last_part o

unfoldable pub is_large_order : Order → Bool
is_large_order o = o.is_large
