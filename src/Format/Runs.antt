-- ===== src/Format/Runs.antt =====
-- The options, the header, the footer and the rows at concrete inputs.
use kingdb.Prelude.{◌≡◌, refl, arith, [], ◌∷◌, ◌++◌, none, some}
use kingdb.Samples.{x86, sums}
use kingdb.Status.{status_io_error}
use kingdb.Options.{DatabaseOptions, default_options, no_compression, no_checksum, xxhash_64}
use kingdb.Reader.{done, failed}
use kingdb.Reader.Fields.{◌>>=◌}
use kingdb.Format.OptionEncoder
use kingdb.Format.OptionEncoder.Laws.{decode_compressed, decode_uncompressed, decode_no_checksum}
use kingdb.Format.Header
use kingdb.Format.Header.{HsTableHeader}
use kingdb.Format.Header.Laws.{written, decode_header-encode_header}

abbrev sample_options : DatabaseOptions
sample_options = record default_options { storage_hstable_size = 4096; hash = xxhash_64 }

abbrev plain_options : DatabaseOptions
plain_options = record sample_options { compression = no_compression }

decode_compressed_example :
    OptionEncoder.decode_from x86 sums
      (OptionEncoder.encode_to x86 sums sample_options ++ (7 ∷ []))
      default_options
    ≡ done sample_options
decode_compressed_example =
    decode_compressed x86 sums sample_options default_options (7 ∷ []) (omega arith) refl refl

decode_uncompressed_example :
    OptionEncoder.decode_from x86 sums
      (OptionEncoder.encode_to x86 sums plain_options ++ [])
      default_options
    ≡ failed (status_io_error "Unknown checksum type")
decode_uncompressed_example =
    decode_uncompressed x86 sums plain_options default_options [] (omega arith) refl

decode_no_checksum_example :
    OptionEncoder.decode_from x86 sums
      (OptionEncoder.encode_to x86 sums (record sample_options { checksum = no_checksum }) ++ [])
      default_options
    ≡ done sample_options
decode_no_checksum_example =
    decode_no_checksum x86 sums (record sample_options { checksum = no_checksum }) default_options
      [] (omega arith) refl refl

abbrev sample_header : HsTableHeader
sample_header = record {
  crc32 = 0;
  data_format_major = 0;
  data_format_minor = 0;
  filetype = 2;
  timestamp = 77;
}

decode_header-encode_header_example :
    (Header.decode_from x86 sums (Header.encode_to x86 sums sample_header sample_options ++ []) none
      ≡ done (written x86 sums sample_header sample_options [] (omega arith) (omega arith), none))
    × ((target : DatabaseOptions)
        → Header.decode_from x86 sums
            (Header.encode_to x86 sums sample_header sample_options ++ [])
            (some target)
          ≡ (OptionEncoder.decode_from x86 sums
                (OptionEncoder.encode_to x86 sums sample_options ++ [])
                target
              >>= λ output. done (
                written x86 sums sample_header sample_options [] (omega arith) (omega arith),
                some output,
              )))
decode_header-encode_header_example =
    decode_header-encode_header x86 sums sample_header sample_options [] (omega arith) (omega arith)
