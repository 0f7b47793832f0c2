-- ===== src/Format/Entry/Runs.antt =====
-- The entry header on concrete bytes, and the theorems at concrete inputs.
use kingdb.Prelude.{
  ◌+◌, ◌-◌, ◌*◌, ◌/◌, ◌%◌, ◌^◌, ◌≤◌, ◌<◌, ◌≡◌, ◌≢◌, ◌↔◌, refl, arith, true, [], ◌∷◌, ◌++◌, length,
}
use kingdb.Samples.{x86, sums}
use kingdb.Coding.{encode_fixed32, encode_fixed64, encode_varint32, encode_varint64, get_varint32}
use kingdb.Options.{DatabaseOptions, ReadOptions, default_options, no_compression}
use kingdb.Reader.{done, failed, out_of_bounds, decoding_error, read_varint32}
use kingdb.Prelude.Int.{pos}
use kingdb.Format.Entry.{
  EntryHeader, encode_body, encode_to, decode_from, are_sizes_valid, size_value_offset,
  calculate_padding_size,
}
use kingdb.Format.Entry.Sizes.{
  entry_end, are_sizes_valid_iff, are_sizes_valid_wraps, calculate_padding_size_bounds,
}
use kingdb.Format.Entry.RoundTrip.{IsEncodable, written, decode_from-encode_to}
use kingdb.Format.Entry.Errors.{decode_from_in_bounds, decode_from_reads_behind, cut_header}

abbrev small_entry : EntryHeader
small_entry = record {
  checksum_header = 0;
  checksum_content = 0xdeadbeef;
  flags = 8;
  size_key = 3;
  size_value = 300;
  size_value_compressed = 200;
  size_padding = 0;
  hash = 0x0123456789abcdef;
  size_header_serialized = 0;
}

abbrev verify : ReadOptions
verify = record { verify_checksums = true }

abbrev plain_options : DatabaseOptions
plain_options = record default_options { compression = no_compression }

small_entry_bytes : length (encode_to x86 sums default_options small_entry) ≡ 26
unfolding encode_to encode_body encode_fixed32 encode_fixed64 encode_varint32 encode_varint64
small_entry_bytes = refl

small_entry-IsEncodable : IsEncodable default_options small_entry
small_entry-IsEncodable = record {
  checksum_content = omega arith;
  flags = omega arith;
  size_key = omega arith;
  size_value = omega arith;
  size_value_compressed = omega arith;
  size_padding = omega arith;
  hash = omega arith;
  stored = λ e. cc;
}

decode_from-encode_to_example :
    decode_from x86 sums default_options verify
      (encode_to x86 sums default_options small_entry ++ (1 ∷ 2 ∷ []))
    ≡ done (
      written x86 sums default_options small_entry small_entry-IsEncodable,
      length (encode_to x86 sums default_options small_entry),
    )
decode_from-encode_to_example =
    decode_from-encode_to x86 sums default_options small_entry small_entry-IsEncodable verify
      (1 ∷ 2 ∷ [])
      (unfold encode_to encode_body encode_fixed32 encode_fixed64 encode_varint32 encode_varint64 in
        omega arith)

decode_from_in_bounds_example :
    decode_from x86 sums plain_options verify (1 ∷ 2 ∷ 3 ∷ 4 ∷ 5 ∷ 6 ∷ []) ≢ out_of_bounds
decode_from_in_bounds_example =
    decode_from_in_bounds x86 sums plain_options verify (1 ∷ 2 ∷ 3 ∷ 4 ∷ 5 ∷ 6 ∷ []) refl
      (omega arith) (omega arith)

decode_from_reads_behind_example :
    decode_from x86 sums default_options verify
      (cut_header x86 sums default_options small_entry small_entry-IsEncodable refl 7 (1 ∷ []))
    ≡ out_of_bounds
decode_from_reads_behind_example =
    decode_from_reads_behind x86 sums default_options small_entry small_entry-IsEncodable refl
      verify 7 (1 ∷ []) (omega arith)
      (unfold encode_fixed32 encode_varint32 encode_varint64 in omega arith)

abbrev read_entry : EntryHeader
read_entry = record small_entry { size_header_serialized = 26 }

are_sizes_valid_iff_example :
    (are_sizes_valid 8192 10000 read_entry ≡ true)
    ↔ ((0 < read_entry.size_key) × (entry_end 8192 read_entry ≤ 10000))
are_sizes_valid_iff_example =
    are_sizes_valid_iff 8192 10000 read_entry (omega arith)
      (unfold size_value_offset in omega arith)

abbrev wrapping_entry : EntryHeader
wrapping_entry = record read_entry { size_key = 2 ^ 64 - 8192 }

are_sizes_valid_wraps_example :
    (are_sizes_valid 8192 10000 wrapping_entry ≡ true) × (10000 < entry_end 8192 wrapping_entry)
are_sizes_valid_wraps_example =
    are_sizes_valid_wraps 8192 10000 wrapping_entry (omega arith)
      (unfold size_value_offset in omega arith) (unfold size_value_offset in omega arith)
      (omega arith) (omega arith)

calculate_padding_size_bounds_example :
    (70000 < calculate_padding_size 70000 / 8 * 65536)
    × (calculate_padding_size 70000 / 8 * 65536 ≤ 70000 + 65536)
    × (calculate_padding_size 70000 % 8 ≡ 0)
calculate_padding_size_bounds_example = calculate_padding_size_bounds 70000 (omega arith)

-- A count that is above the bytes left: the loop of GetVarint32 goes on behind the buffer, unless the
-- number ends before, and gives up behind the fifth byte.
varint_behind : read_varint32 (record { ptr = 0x80 ∷ []; size = pos 2 }) ≡ out_of_bounds
unfolding read_varint32
varint_behind = refl

varint_ends :
    read_varint32 (record { ptr = 0x01 ∷ []; size = pos 2 })
    ≡ done (1, record { ptr = []; size = pos 1 })
unfolding read_varint32 get_varint32
varint_ends = refl

varint_too_long :
    read_varint32 (record { ptr = 0x80 ∷ 0x80 ∷ 0x80 ∷ 0x80 ∷ 0x80 ∷ []; size = pos 6 })
    ≡ failed decoding_error
unfolding read_varint32 get_varint32
varint_too_long = refl
