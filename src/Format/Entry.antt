-- ===== src/Format/Entry.antt =====
-- `struct EntryHeader`: flags, sizes, EncodeTo and DecodeFrom.
pub mod Flags
pub mod Sizes
pub mod RoundTrip
pub mod Errors
mod Runs
use kingdb.Prelude.{
  ℕ, zero, suc, ◌+◌, ◌-◌, ◌*◌, ◌/◌, ◌%◌, ◌^◌, ◌≤◌, ◌<◌, bit_and, bit_or, Bool, true, false, not,
  ◌&&◌, ◌||◌, List, [], ◌∷◌, ◌++◌, length, take, drop, ltb, leb, ◌==◌, if◌then◌else◌,
}
use kingdb.Prelude.Int.{ltb_ℤ}
use kingdb.Coding.{Platform, encode_fixed32, encode_fixed64, encode_varint32, encode_varint64}
use kingdb.Status.{status_io_error}
use kingdb.Options.{DatabaseOptions, ReadOptions, has_compression}
use kingdb.Reader.{
  Cursor, Read, done, failed, out_of_bounds, Reader, ◌>>=◌, pure, fail, decoding_error, start,
  read_uint8, read_fixed32, read_fixed64, read_varint32, read_varint64, bytes_read, bytes_behind,
}
use kingdb.Format.Checksums.{Checksums}

-- EntryHeaderFlag
abbrev pub type_delete : ℕ
type_delete = 0x1

abbrev pub uncompacted : ℕ
uncompacted = 0x2

abbrev pub padding : ℕ
padding = 0x4

abbrev pub entry_full : ℕ
entry_full = 0x8

pub record EntryHeader : Type 0 where
  pub checksum_header : ℕ
  pub checksum_content : ℕ
  pub flags : ℕ
  pub size_key : ℕ
  pub size_value : ℕ
  pub size_value_compressed : ℕ
  pub size_padding : ℕ
  pub hash : ℕ
  pub size_header_serialized : ℕ

-- The arithmetic is that of `uint64_t`.
unfoldable pub calculate_padding_size : ℕ → ℕ
calculate_padding_size size_value = (size_value / (64 * 1024) + 1) * 8 % 2 ^ 64

-- `flags |= mask` and `flags &= ~mask`, for flags of 32 bits.
abbrev pub set_flag : ℕ → Bool → ℕ → ℕ
set_flag mask true flags = bit_or flags mask
set_flag mask false flags = bit_and flags (2 ^ 32 - 1 - mask)

abbrev pub test_flag : ℕ → ℕ → Bool
test_flag mask flags = not (bit_and flags mask == 0)

unfoldable pub set_has_padding : Bool → EntryHeader → EntryHeader
set_has_padding b h = record h { flags = set_flag padding b h.flags }

unfoldable pub has_padding : EntryHeader → Bool
has_padding h = test_flag padding h.flags

unfoldable pub set_is_uncompacted : Bool → EntryHeader → EntryHeader
set_is_uncompacted b h = record h { flags = set_flag uncompacted b h.flags }

unfoldable pub is_uncompacted : EntryHeader → Bool
is_uncompacted h = test_flag uncompacted h.flags

unfoldable pub set_type_delete : EntryHeader → EntryHeader
set_type_delete h = record h { flags = bit_or h.flags type_delete }

unfoldable pub is_type_delete : EntryHeader → Bool
is_type_delete h = test_flag type_delete h.flags

unfoldable pub is_type_put : EntryHeader → Bool
unfolding is_type_delete
is_type_put h = not (is_type_delete h)

unfoldable pub set_entry_full : EntryHeader → EntryHeader
set_entry_full h = record h { flags = bit_or h.flags entry_full }

unfoldable pub is_entry_full : EntryHeader → Bool
is_entry_full h = test_flag entry_full h.flags

unfoldable pub is_compressed : EntryHeader → Bool
is_compressed h = ltb 0 h.size_value_compressed

unfoldable pub size_value_used : EntryHeader → ℕ
unfolding is_compressed
size_value_used h = if is_compressed h then h.size_value_compressed else h.size_value

unfoldable pub size_value_offset : EntryHeader → ℕ
unfolding is_compressed is_uncompacted
size_value_offset h =
    if not (is_compressed h) || is_uncompacted h
    then (h.size_value + h.size_padding) % 2 ^ 64
    else h.size_value_compressed

-- The first sum is one of 32 bits, since `offset_file` is a `uint32_t` and `size_header_serialized`
-- an `int32_t`; the others are of 64 bits.
unfoldable pub are_sizes_valid : ℕ → ℕ → EntryHeader → Bool
unfolding size_value_offset
are_sizes_valid offset_file filesize h =
    ltb 0 h.size_key
    && leb
        (((offset_file + h.size_header_serialized) % 2 ^ 32 + h.size_key + size_value_offset h)
          % 2 ^ 64)
        filesize

-- The output of DecodeFrom, once all fields are read.
abbrev pub fill : ℕ → ℕ → ℕ → ℕ → ℕ → ℕ → ℕ → ℕ → ℕ → Reader EntryHeader
fill num_bytes_max checksum_header checksum_content flags size_key size_value size_value_compressed
      size_padding hash c =
    done (
      record {
        checksum_header = checksum_header;
        checksum_content = checksum_content;
        flags = flags;
        size_key = size_key;
        size_value = size_value;
        size_value_compressed = size_value_compressed;
        size_padding = size_padding;
        hash = hash;
        size_header_serialized = bytes_read num_bytes_max c.size;
      },
      c,
    )

module _ (p : Platform) (cs : Checksums) (db_options : DatabaseOptions) where
  -- What EncodeTo writes behind the first byte.
  unfoldable pub encode_body : EntryHeader → List ℕ
  encode_body h =
      encode_fixed32 p h.checksum_content
      ++ (encode_varint32 h.flags
          ++ (encode_varint64 h.size_key
              ++ (encode_varint64 h.size_value
                  ++ ((if has_compression db_options.compression
                        then encode_fixed64 p h.size_value_compressed
                          ++ encode_varint64 h.size_padding
                        else [])
                      ++ encode_fixed64 p h.hash))))

  -- EncodeTo: the first byte is the checksum of the others.
  unfoldable pub encode_to : EntryHeader → List ℕ
  encode_to h = cs.crc8 (encode_body h) ∷ encode_body h

  -- The two fields that are written only where the database compresses.
  unfoldable pub read_compressed_sizes : Bool → Reader (ℕ × ℕ)
  read_compressed_sizes true = do
    size_value_compressed ← read_fixed64 p
    size_padding ← read_varint64
    pure (size_value_compressed, size_padding)
  read_compressed_sizes false = pure (0, 0)

  -- `if (size < 8)`, before the load of the hash.
  unfoldable pub read_hash : Reader ℕ
  read_hash c = if ltb_ℤ c.size 8 then failed decoding_error else read_fixed64 p c

  -- The checksum of the header is compared over the bytes that were read: crc8 loads `length - 1`
  -- bytes, in 64 bits, behind the first.
  unfoldable pub verify_header : ReadOptions → List ℕ → EntryHeader → Read (EntryHeader × ℕ)
  verify_header read_options buffer h =
      if not read_options.verify_checksums
      then done (h, h.size_header_serialized)
      else elim (bytes_behind ((h.size_header_serialized + 2 ^ 64 - 1) % 2 ^ 64) (drop 1 buffer)) [
        | done covered ↦
            if not (cs.crc8 covered == h.checksum_header)
            then failed (status_io_error "Header checksum mismatch")
            else done (h, h.size_header_serialized)
        | failed s ↦ failed s
        | out_of_bounds ↦ out_of_bounds
      ]

  unfoldable pub read_fields : ℕ → Reader EntryHeader
  unfolding read_compressed_sizes read_hash
  read_fields num_bytes_max = do
    checksum_header ← read_uint8
    checksum_content ← read_fixed32 p
    flags ← read_varint32
    size_key ← read_varint64
    size_value ← read_varint64
    (size_value_compressed, size_padding) ←
        read_compressed_sizes (has_compression db_options.compression)
    hash ← read_hash
    fill num_bytes_max checksum_header checksum_content flags size_key size_value
        size_value_compressed size_padding hash

  abbrev pub verify_fields :
      ReadOptions → List ℕ → Read (EntryHeader × Cursor) → Read (EntryHeader × ℕ)
  verify_fields read_options buffer (done (h, _)) = verify_header read_options buffer h
  verify_fields read_options buffer (failed s) = failed s
  verify_fields read_options buffer out_of_bounds = out_of_bounds

  -- DecodeFrom on a buffer of `num_bytes_max` bytes: the header and `num_bytes_read`. What a
  -- failed call has stored in `output` is not kept; no caller reads it.
  unfoldable pub decode_from : ReadOptions → List ℕ → Read (EntryHeader × ℕ)
  unfolding read_fields verify_header
  decode_from read_options buffer =
      verify_fields read_options buffer (read_fields (length buffer) (start buffer))
