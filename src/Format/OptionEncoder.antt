-- ===== src/Format/OptionEncoder.antt =====
-- `struct DatabaseOptionEncoder`: the options of a database in 48 bytes.
pub mod Laws
use kingdb.Prelude.{
  ℕ, ◌+◌, ◌-◌, ◌^◌, ◌<◌, Bool, true, false, not, ◌||◌, List, [], ◌∷◌, ◌++◌, length, take, drop, ltb,
  ◌==◌, if◌then◌else◌,
}
use kingdb.Coding.{Platform, encode_fixed32, encode_fixed64}
use kingdb.Status.{status_io_error}
use kingdb.Options.{
  DatabaseOptions, HashType, murmurhash3_64, xxhash_64, CompressionType, no_compression,
  lz4_compression, ChecksumType, crc32c, hash_code, compression_code, checksum_code,
}
use kingdb.Reader.{Read, done, failed, out_of_bounds, decoding_error}
use kingdb.Reader.Fields.{◌>>=◌, field32, field64}
use kingdb.Format.Checksums.{Checksums}

-- kVersionMajor and its siblings, of util/version.h.
abbrev pub version_major : ℕ
version_major = 0

abbrev pub version_minor : ℕ
version_minor = 9

abbrev pub version_revision : ℕ
version_revision = 0

abbrev pub version_build : ℕ
version_build = 0

abbrev pub version_data_format_major : ℕ
version_data_format_major = 1

abbrev pub version_data_format_minor : ℕ
version_data_format_minor = 0

abbrev pub options_size : ℕ
options_size = 48

-- The three enumerations, from the numbers that are stored.
unfoldable pub hash_of : ℕ → Read HashType
hash_of n =
    if n == 0
    then done murmurhash3_64
    else if n == 1
    then done xxhash_64
    else failed (status_io_error "Unknown hash type")

unfoldable pub compression_of : ℕ → Read CompressionType
compression_of n =
    if n == 0
    then done no_compression
    else if n == 1
    then done lz4_compression
    else failed (status_io_error "Unknown compression type")

-- The test reads the compression type, where it means to read the type of the checksum.
unfoldable pub checksum_of : ℕ → ℕ → Read ChecksumType
checksum_of compression_type checksum_type =
    if compression_type == 1 then done crc32c else failed (status_io_error "Unknown checksum type")

module _ (p : Platform) (cs : Checksums) where
  -- The 44 bytes behind the checksum.
  unfoldable pub encode_body : DatabaseOptions → List ℕ
  encode_body o =
      encode_fixed32 p version_major
      ++ (encode_fixed32 p version_minor
          ++ (encode_fixed32 p version_revision
              ++ (encode_fixed32 p version_build
                  ++ (encode_fixed32 p version_data_format_major
                      ++ (encode_fixed32 p version_data_format_minor
                          ++ (encode_fixed64 p o.storage_hstable_size
                              ++ (encode_fixed32 p (hash_code o.hash)
                                  ++ (encode_fixed32 p (compression_code o.compression)
                                      ++ encode_fixed32 p (checksum_code o.checksum)))))))))

  unfoldable pub encode_to : DatabaseOptions → List ℕ
  encode_to o = encode_fixed32 p (cs.crc32_value (encode_body o)) ++ encode_body o

  -- The fields behind the version, stored into the options at hand.
  unfoldable pub decode_fields : List ℕ → DatabaseOptions → Read DatabaseOptions
  unfolding hash_of compression_of checksum_of
  decode_fields buffer output = do
    storage_hstable_size ← field64 p buffer 28
    hash ← field32 p buffer 36
    compression_type ← field32 p buffer 40
    checksum_type ← field32 p buffer 44
    hash ← hash_of hash
    compression ← compression_of compression_type
    checksum ← checksum_of compression_type checksum_type
    done (record output {
      storage_hstable_size = storage_hstable_size;
      hash = hash;
      compression = compression;
      checksum = checksum;
    })

  -- The checks between the size and the fields: the checksum, and then the version.
  unfoldable pub check_version : ℕ → ℕ → Read DatabaseOptions → Read DatabaseOptions
  check_version major minor next =
      if not (major == version_data_format_major) || not (minor == version_data_format_minor)
      then failed (status_io_error "Data format version not supported")
      else next

  unfoldable pub check_crc32 : List ℕ → ℕ → Read DatabaseOptions → Read DatabaseOptions
  check_crc32 buffer crc32_stored next =
      if not (cs.crc32_value (take 44 (drop 4 buffer)) == crc32_stored)
      then failed (status_io_error "Invalid checksum")
      else next

  abbrev pub decode_versions : List ℕ → DatabaseOptions → Read DatabaseOptions
  decode_versions buffer output = do
    major ← field32 p buffer 20
    minor ← field32 p buffer 24
    check_version major minor (decode_fields buffer output)

  unfoldable pub decode_from : List ℕ → DatabaseOptions → Read DatabaseOptions
  unfolding decode_fields check_version check_crc32
  decode_from buffer output = if ltb (length buffer) options_size then failed decoding_error else do
    crc32_stored ← field32 p buffer 0
    check_crc32 buffer crc32_stored (decode_versions buffer output)
