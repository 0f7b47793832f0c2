-- ===== src/Database.antt =====
-- interface/database.cc: how PutPart splits a large value.
pub mod Pieces
pub mod Parts
pub mod ValidSize
mod Runs
use kingdb.Prelude.{
  ℕ, zero, suc, ◌+◌, ◌-◌, ◌%◌, ◌^◌, Bool, true, false, Option, none, some, List, length, ltb, leb,
  if◌then◌else◌,
}
use kingdb.Status.{Status, status_ok, status_io_error, is_ok}
use kingdb.Options.{DatabaseOptions}
use kingdb.ByteArray.{ByteArray, bytes, set_size, set_offset}

-- PutPartValidSize, for the bytes of a part, its offset in the value and the size of the value: the
-- model of PutPart takes it as an argument, with the state that it works on.
abbrev pub ValidSizeHandler : Type 0 → Type 0
ValidSizeHandler S = List ℕ → ℕ → ℕ → S → Status × S

module _ {S : Type 0} (db_options : DatabaseOptions)
    (put_part_valid_size : ValidSizeHandler S) where
  -- The part of the chunk at an offset.
  unfoldable pub chunk_at : ByteArray → ℕ → ℕ → ByteArray
  chunk_at chunk size_chunk offset =
      if ltb ((offset + db_options.storage_maximum_part_size) % 2 ^ 64) chunk.size
      then set_size db_options.storage_maximum_part_size (set_offset offset chunk)
      else set_size (size_chunk - offset) (set_offset offset chunk)

  -- The loop, on fuel. `none` is a loop that is still running.
  unfoldable pub put_parts : ℕ → ByteArray → ℕ → ℕ → ℕ → ℕ → S → Option (Status × S)
  unfolding chunk_at
  put_parts zero chunk offset_chunk size_value size_chunk offset s = none
  put_parts (suc fuel) chunk offset_chunk size_value size_chunk offset s =
      let (status, s') =
        put_part_valid_size (bytes (chunk_at chunk size_chunk offset))
          ((offset_chunk + offset) % 2 ^ 64) size_value s in
      let rest =
        put_parts fuel chunk offset_chunk size_value size_chunk
          ((offset + db_options.storage_maximum_part_size) % 2 ^ 64) s' in
      if ltb offset size_chunk
      then if is_ok status then rest else some (status, s')
      else some (status_ok, s)

  -- The chunk has `size` bytes, so that many rounds and the last test are enough.
  unfoldable pub put_part : Bool → ByteArray → ℕ → ℕ → S → Option (Status × S)
  unfolding put_parts
  put_part is_closed chunk offset_chunk size_value s =
      if is_closed
      then some (status_io_error "The database is not open", s)
      else if ltb size_value ((offset_chunk + chunk.size) % 2 ^ 64)
      then some (status_io_error "Attempted write beyond the total value size, aborting write.", s)
      else if leb size_value db_options.storage_maximum_part_size
      then some (put_part_valid_size (bytes chunk) offset_chunk size_value s)
      else put_parts (suc chunk.size) chunk offset_chunk size_value chunk.size 0 s
