-- ===== src/Format/Header.antt =====
-- `struct HSTableHeader`: the first bytes of a HSTable, before the options of its database.
pub mod Laws
use kingdb.Prelude.{
  ℕ, ◌+◌, ◌-◌, ◌<◌, bit_and, Bool, true, false, not, ◌&&◌, ◌||◌, List, [], ◌∷◌, ◌++◌, length, take,
  drop, ltb, ◌==◌, if◌then◌else◌, Option, none, some,
}
use kingdb.Coding.{Platform, encode_fixed32, encode_fixed64}
use kingdb.Status.{status_io_error}
use kingdb.Options.{DatabaseOptions}
use kingdb.Reader.{Read, done, failed, out_of_bounds, decoding_error}
use kingdb.Reader.Fields.{◌>>=◌, field32, field64}
use kingdb.Format.Checksums.{Checksums}
use kingdb.Format.Filetype.{unknown_type, uncompacted_regular, compacted_regular, compacted_large}
use kingdb.Format.OptionEncoder
use kingdb.Format.OptionEncoder.{version_data_format_major, version_data_format_minor}

-- The fields that the file carries.
pub record HsTableHeader : Type 0 where
  pub crc32 : ℕ
  pub data_format_major : ℕ
  pub data_format_minor : ℕ
  pub filetype : ℕ
  pub timestamp : ℕ

abbrev pub header_size : ℕ
header_size = 24

unfoldable pub get_file_type : HsTableHeader → ℕ
get_file_type h =
    if not (bit_and h.filetype compacted_large == 0)
    then compacted_large
    else if not (bit_and h.filetype compacted_regular == 0)
    then compacted_regular
    else if not (bit_and h.filetype uncompacted_regular == 0)
    then uncompacted_regular
    else unknown_type

unfoldable pub is_type_large : HsTableHeader → Bool
is_type_large h = not (bit_and h.filetype compacted_large == 0)

unfoldable pub is_type_compacted : HsTableHeader → Bool
is_type_compacted h =
    not (bit_and h.filetype compacted_regular == 0) || not (bit_and h.filetype compacted_large == 0)

unfoldable pub is_file_version_supported : HsTableHeader → Bool
is_file_version_supported h =
    h.data_format_major == version_data_format_major
    && h.data_format_minor == version_data_format_minor

unfoldable pub is_file_version_newer : HsTableHeader → Bool
is_file_version_newer h =
    ltb version_data_format_major h.data_format_major
    || (h.data_format_major == version_data_format_major
        && ltb version_data_format_minor h.data_format_minor)

module _ (p : Platform) (cs : Checksums) where
  -- The 20 bytes behind the checksum.
  unfoldable pub encode_body : HsTableHeader → List ℕ
  encode_body h =
      encode_fixed32 p version_data_format_major
      ++ (encode_fixed32 p version_data_format_minor
          ++ (encode_fixed32 p h.filetype ++ encode_fixed64 p h.timestamp))

  unfoldable pub encode_to : HsTableHeader → DatabaseOptions → List ℕ
  unfolding encode_body
  encode_to h o =
      encode_fixed32 p (cs.crc32_value (encode_body h))
      ++ (encode_body h ++ OptionEncoder.encode_to p cs o)

  -- The options, where the caller asks for them by passing those to overwrite.
  unfoldable pub decode_options :
      List ℕ
      → HsTableHeader
      → Option DatabaseOptions
      → Read (HsTableHeader × Option DatabaseOptions)
  decode_options buffer h none = done (h, none)
  decode_options buffer h (some o) =
      OptionEncoder.decode_from p cs (drop header_size buffer) o >>= λ o'. done (h, some o')

  unfoldable pub check :
      List ℕ
      → HsTableHeader
      → Option DatabaseOptions
      → Read (HsTableHeader × Option DatabaseOptions)
  unfolding decode_options is_file_version_supported
  check buffer h o =
      if not (is_file_version_supported h)
      then failed (status_io_error "Data format version not supported")
      else if not (cs.crc32_value (take 20 (drop 4 buffer)) == h.crc32)
      then failed (status_io_error "Invalid checksum")
      else decode_options buffer h o

  unfoldable pub decode_from :
      List ℕ → Option DatabaseOptions → Read (HsTableHeader × Option DatabaseOptions)
  unfolding check
  decode_from buffer o = if ltb (length buffer) header_size then failed decoding_error else do
    crc32 ← field32 p buffer 0
    data_format_major ← field32 p buffer 4
    data_format_minor ← field32 p buffer 8
    filetype ← field32 p buffer 12
    timestamp ← field64 p buffer 16
    check buffer
        (record {
          crc32 = crc32;
          data_format_major = data_format_major;
          data_format_minor = data_format_minor;
          filetype = filetype;
          timestamp = timestamp;
        })
        o
