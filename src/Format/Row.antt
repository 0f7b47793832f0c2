-- ===== src/Format/Row.antt =====
-- `struct OffsetArrayRow`: a row of the offset array of a HSTable, the hash of a key and the
-- offset of its entry.
pub mod RoundTrip
use kingdb.Prelude.{ℕ, List, ◌++◌, length}
use kingdb.Coding.{encode_varint32, encode_varint64}
use kingdb.Reader.{
  Cursor, Read, done, failed, out_of_bounds, Reader, ◌>>=◌, start, read_varint32, read_varint64,
  bytes_read,
}

pub record OffsetArrayRow : Type 0 where
  pub hashed_key : ℕ
  pub offset_entry : ℕ

unfoldable pub encode_to : OffsetArrayRow → List ℕ
encode_to r = encode_varint64 r.hashed_key ++ encode_varint32 r.offset_entry

-- The row, with the number of bytes that it takes.
unfoldable pub finish : ℕ → ℕ → ℕ → Reader (OffsetArrayRow × ℕ)
finish num_bytes_max hashed_key offset_entry c = done (
  (
    record { hashed_key = hashed_key; offset_entry = offset_entry },
    bytes_read num_bytes_max c.size,
  ),
  c,
)

unfoldable pub read_row : ℕ → Reader (OffsetArrayRow × ℕ)
unfolding finish
read_row num_bytes_max = do
  hashed_key ← read_varint64
  offset_entry ← read_varint32
  finish num_bytes_max hashed_key offset_entry

abbrev pub row_of : Read ((OffsetArrayRow × ℕ) × Cursor) → Read (OffsetArrayRow × ℕ)
row_of (done (r, c)) = done r
row_of (failed s) = failed s
row_of out_of_bounds = out_of_bounds

unfoldable pub decode_from : List ℕ → Read (OffsetArrayRow × ℕ)
unfolding read_row
decode_from buffer = row_of (read_row (length buffer) (start buffer))
