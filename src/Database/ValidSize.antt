-- ===== src/Database/ValidSize.antt =====
-- PutPartValidSize: what a part of a value becomes on its way to the write buffer.
pub mod Room
pub mod Accepted
pub mod LastPart
pub mod Value
mod Runs
use kingdb.Prelude.{
  ℕ, ◌+◌, ◌%◌, ◌^◌, Bool, true, false, not, ◌&&◌, ◌||◌, List, ◌++◌, length, ltb, ◌==◌,
  if◌then◌else◌,
}
use kingdb.Coding.{Platform}
use kingdb.Status.{Status, is_ok, status_io_error}
use kingdb.Options.{DatabaseOptions, CompressionType}
use kingdb.Reader.{Read, done, failed, out_of_bounds}
use kingdb.Format.Entry.{calculate_padding_size}
use kingdb.ResourceManager.{sub64}
use kingdb.HsTable.Recovery.Rewrite.{zeros}
use kingdb.Compressor.{
  Lz4, ThreadState, compress, reset_thread_local_storage, adjust_compressed_size, size_frame_header,
}

-- What the database keeps for the thread that writes.
pub record Writing : Type 0 where
  pub ts_compression_enabled : ℕ
  pub ts_offset : ℕ
  pub compressor : ThreadState
  pub crc32 : ℕ

-- The arguments of the call of the write buffer.
pub record Submission : Type 0 where
  pub chunk : List ℕ
  pub offset_chunk : ℕ
  pub size_value : ℕ
  pub size_value_compressed : ℕ
  pub crc32 : ℕ

abbrev pub compresses : DatabaseOptions → List ℕ → Bool
compresses db_options chunk = not (length chunk == 0) && (elim db_options.compression [
  | CompressionType.no_compression ↦ false
  | CompressionType.lz4_compression ↦ true
])

-- The chunk that is written, and where.
pub record Placed : Type 0 where
  pub chunk : List ℕ
  pub offset : ℕ
  pub state : Writing

abbrev pub start_part : Bool → Writing → Writing
start_part is_first_part w =
    if is_first_part then record w { ts_compression_enabled = 1; ts_offset = 0 } else w

-- Where compression is disabled, the offset is counted apart.
abbrev pub uncompressed_offset : List ℕ → ℕ → Writing → ℕ × Writing
uncompressed_offset chunk offset_chunk w =
    if w.ts_compression_enabled == 0
    then (w.ts_offset, record w { ts_offset = (w.ts_offset + length chunk) % 2 ^ 64 })
    else (offset_chunk, w)

abbrev pub reset_compressor : Bool → Writing → Writing
reset_compressor is_first_part w = record w {
  compressor = if is_first_part then reset_thread_local_storage w.compressor else w.compressor;
}

module _ (p : Platform) (lz4 : Lz4) (extend : ℕ → List ℕ → ℕ) (db_options : DatabaseOptions) where
  -- The test whether the rest of the value still fits as raw data, once the chunk is compressed.
  unfoldable pub has_no_room : List ℕ → List ℕ → ℕ → ℕ → ℕ → Bool
  has_no_room chunk frame offset offset_chunk size_value =
      let size_remaining = sub64 size_value offset_chunk in
      let space_left = sub64 ((size_value + calculate_padding_size size_value) % 2 ^ 64) offset in
      ltb (sub64 space_left (length frame))
        ((sub64 size_remaining (length chunk) + size_frame_header) % 2 ^ 64)

  -- Compression is disabled for the rest of the value: the chunk is stored behind a null header.
  abbrev pub disable : List ℕ → List ℕ → ℕ → Writing → Placed
  disable chunk frame offset w =
      let c = adjust_compressed_size (sub64 0 (length frame)) w.compressor in
      record {
        chunk = zeros size_frame_header ++ chunk;
        offset = offset;
        state = record w {
          compressor = c;
          ts_compression_enabled = 0;
          ts_offset = (c.ts_compress + (length chunk + size_frame_header)) % 2 ^ 64;
        };
      }

  unfoldable pub compress_part : Bool → List ℕ → ℕ → ℕ → Writing → Read Placed
  unfolding has_no_room adjust_compressed_size reset_thread_local_storage
  compress_part is_first_part chunk offset_chunk size_value w =
      let c = (reset_compressor is_first_part w).compressor in
      elim (compress p lz4 extend chunk c) [
        | failed s ↦ failed s
        | out_of_bounds ↦ out_of_bounds
        | done (frame, c') ↦ done (
            if has_no_room chunk frame c.ts_compress offset_chunk size_value
            then disable chunk frame c.ts_compress (record w { compressor = c' })
            else record {
              chunk = frame;
              offset = c.ts_compress;
              state = record w { compressor = c' };
            })
      ]

  unfoldable pub place_part : Bool → List ℕ → ℕ → ℕ → Writing → Read Placed
  unfolding compress_part
  place_part is_first_part chunk offset_chunk size_value w0 =
      let w = start_part is_first_part w0 in
      let (offset, w1) = uncompressed_offset chunk offset_chunk w in
      if not (compresses db_options chunk) || (w1.ts_compression_enabled == 0)
      then done (record { chunk = chunk; offset = offset; state = w1 })
      else compress_part is_first_part chunk offset_chunk size_value w1

  -- The compressed size of the value, which is known with its last part.
  unfoldable pub compressed_size : Bool → Bool → List ℕ → Placed → ℕ
  compressed_size is_first_part is_last_part chunk q =
      if compresses db_options chunk && is_last_part
      then if q.state.ts_compression_enabled == 1
        then q.state.compressor.ts_compress
        else if is_first_part
        then q.state.ts_offset
        else (q.offset + length chunk) % 2 ^ 64
      else 0

  -- The CRC of the key and of all that is written.
  abbrev pub stream_part : Bool → List ℕ → Placed → ℕ
  stream_part is_first_part key q =
      extend (if is_first_part then extend 0 key else q.state.crc32) q.chunk

  unfoldable pub finish_part :
      Bool → Bool → List ℕ → List ℕ → ℕ → Placed → Read Submission × Writing
  unfolding compressed_size
  finish_part is_first_part is_last_part key chunk size_value q =
      let crc = stream_part is_first_part key q in
      let size_padding =
        if compresses db_options chunk then calculate_padding_size size_value else 0 in
      (
        (if ltb ((size_value + size_padding) % 2 ^ 64) ((q.offset + length q.chunk) % 2 ^ 64)
            then failed
                (status_io_error "Prevented write to occur outside of the allocated memory.")
            else done (record {
              chunk = q.chunk;
              offset_chunk = q.offset;
              size_value = size_value;
              size_value_compressed = compressed_size is_first_part is_last_part chunk q;
              crc32 = if is_last_part then crc else 0;
            })),
        record q.state { crc32 = crc },
      )

  -- PutPartValidSize; `file_system_status` is what the storage engine says of the file system.
  unfoldable pub put_part_valid_size :
      Bool → Status → List ℕ → List ℕ → ℕ → ℕ → Writing → Read Submission × Writing
  unfolding place_part finish_part
  put_part_valid_size is_closed file_system_status key chunk offset_chunk size_value w =
      let is_first_part = offset_chunk == 0 in
      let is_last_part = (length chunk + offset_chunk) % 2 ^ 64 == size_value in
      if is_closed
      then (failed (status_io_error "The database is not open"), w)
      else if not (is_ok file_system_status)
      then (failed file_system_status, w)
      else elim (place_part is_first_part chunk offset_chunk size_value w) [
        | failed s ↦ (failed s, reset_compressor is_first_part (start_part is_first_part w))
        | out_of_bounds ↦
            (out_of_bounds, reset_compressor is_first_part (start_part is_first_part w))
        | done q ↦ finish_part is_first_part is_last_part key chunk size_value q
      ]
