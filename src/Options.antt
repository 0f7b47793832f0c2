-- ===== src/Options.antt =====
-- util/options.h: the options that the storage format and the components read.
use kingdb.Prelude.{ℕ, Bool, true, false}

pub data HashType : Type 0 where
  murmurhash3_64 xxhash_64 : HashType

pub data CompressionType : Type 0 where
  no_compression lz4_compression : CompressionType

pub data ChecksumType : Type 0 where
  no_checksum crc32c : ChecksumType

pub data WriteBufferMode : Type 0 where
  direct adaptive : WriteBufferMode

-- The values that the enumerators are given.
abbrev pub hash_code : HashType → ℕ
hash_code murmurhash3_64 = 0
hash_code xxhash_64 = 1

abbrev pub compression_code : CompressionType → ℕ
compression_code no_compression = 0
compression_code lz4_compression = 1

abbrev pub checksum_code : ChecksumType → ℕ
checksum_code no_checksum = 0
checksum_code crc32c = 1

-- `compression.type != kNoCompression`
abbrev pub has_compression : CompressionType → Bool
has_compression no_compression = false
has_compression lz4_compression = true

-- The options that are stored with a database, and those that the models of the other components
-- read.
pub record DatabaseOptions : Type 0 where
  pub hash : HashType
  pub compression : CompressionType
  pub checksum : ChecksumType
  pub storage_hstable_size : ℕ
  pub internal_hstable_header_size : ℕ
  pub rate_limit_incoming : ℕ
  pub write_buffer_size : ℕ
  pub write_buffer_mode : WriteBufferMode
  pub storage_inactivity_timeout : ℕ
  pub storage_maximum_part_size : ℕ

-- The constructor's values, and the defaults of the configuration parameters in bytes and
-- milliseconds.
abbrev pub default_options : DatabaseOptions
default_options = record {
  hash = xxhash_64;
  compression = lz4_compression;
  checksum = crc32c;
  storage_hstable_size = 33554432;
  internal_hstable_header_size = 8192;
  rate_limit_incoming = 0;
  write_buffer_size = 67108864;
  write_buffer_mode = direct;
  storage_inactivity_timeout = 60000;
  storage_maximum_part_size = 1048576;
}

pub record ReadOptions : Type 0 where
  pub verify_checksums : Bool

pub record WriteOptions : Type 0 where
  pub sync : Bool
