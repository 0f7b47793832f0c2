-- ===== src/HsTable/Recovery/Runs.antt =====
-- The scan of RecoverFile on concrete files.
use kingdb.Prelude.{ℕ, ◌≡◌, refl, arith, true, false, none, some, List, [], ◌∷◌, ◌++◌, length}
use kingdb.Samples.{x86, sums, sum}
use kingdb.Coding.{encode_fixed32, encode_fixed64, encode_varint32, encode_varint64}
use kingdb.Options.{DatabaseOptions, default_options}
use kingdb.Reader.{
  done, failed, out_of_bounds, decoding_error, read_uint8, read_fixed32, read_varint32,
}
use kingdb.Coding.{get_fixed32, get_varint32}
use kingdb.Format.Entry.{
  EntryHeader, encode_to, encode_body, decode_from, read_fields, size_value_offset, is_uncompacted,
  size_value_used, has_padding,
}
use kingdb.Format.Entry.RoundTrip.{IsEncodable, written}
use kingdb.HsTable.Recovery.{Recovery, scan, visit, verifying}
use kingdb.Format.Header
use kingdb.Format.Header.{HsTableHeader, get_file_type, is_type_large}
use kingdb.Format.Header.Laws
use kingdb.Format.OptionEncoder
use kingdb.Format.Row
use kingdb.HsTable.OffsetArray.{encode_rows, load_file}
use kingdb.HsTable.OffsetArray.RoundTrip.{report}
use kingdb.HsTable.Recovery.Rewrite.{recover_file, resize}
use kingdb.HsTable.Recovery.Rewritten.{end, new_file, load_file-recover_file}
use kingdb.HsTable.Recovery.Checksum.{visit_uncompacted}
use kingdb.HsTable.Recovery.Scan.{scan-entries_bytes, scan_runs_off}
use kingdb.HsTable.Recovery.Written.{Entry, IsWhole, entries_bytes, found_all}

abbrev a_header : EntryHeader
a_header = record {
  checksum_header = 0;
  checksum_content = 99;
  flags = 8;
  size_key = 2;
  size_value = 3;
  size_value_compressed = 0;
  size_padding = 0;
  hash = 7;
  size_header_serialized = 0;
}

abbrev an_entry : Entry
an_entry = record { header = a_header; key = 107 ∷ 49 ∷ []; value = 4 ∷ 5 ∷ 6 ∷ [] }

an_entry-IsWhole : IsWhole x86 sums default_options an_entry
an_entry-IsWhole = record {
  encodable = record {
    checksum_content = omega arith;
    flags = omega arith;
    size_key = omega arith;
    size_value = omega arith;
    size_value_compressed = omega arith;
    size_padding = omega arith;
    hash = omega arith;
    stored = λ e. cc;
  };
  key = refl;
  nonempty = omega arith;
  value = unfold size_value_offset in refl;
  compacted = unfold is_uncompacted in refl;
}

abbrev two_entries : List Entry
two_entries = an_entry ∷ an_entry ∷ []

abbrev two_entries_bytes : List ℕ
two_entries_bytes = entries_bytes x86 sums default_options two_entries

-- A tail in which the flags do not end.
abbrev broken : List ℕ
broken = 1 ∷ 2 ∷ 3 ∷ 4 ∷ 5 ∷ 200 ∷ []

abbrev at_start : Recovery
at_start = record {
  offset = 0;
  offarray_current = [];
  has_padding_in_values = false;
  has_invalid_entries = false;
  index = [];
}

broken_fails : decode_from x86 sums default_options verifying broken ≡ failed decoding_error
unfolding decode_from read_fields read_uint8 read_fixed32 read_varint32 get_fixed32 get_varint32
broken_fails = refl

scan-entries_bytes_example :
    scan x86 sums default_options (two_entries_bytes ++ broken) 5 8 at_start
    ≡ some (done (found_all x86 sums default_options 5 two_entries at_start))
scan-entries_bytes_example =
    scan-entries_bytes x86 sums default_options (two_entries_bytes ++ broken) 5 5 two_entries broken
      at_start (an_entry-IsWhole, (an_entry-IsWhole, tt)) refl (omega arith)
      (unfold entries_bytes encode_to encode_body encode_fixed32 encode_fixed64 encode_varint32
          encode_varint64 in
        omega arith)
      broken_fails

scan_runs_off_example :
    scan x86 sums default_options (two_entries_bytes ++ []) 5 8 at_start ≡ some out_of_bounds
scan_runs_off_example =
    scan_runs_off x86 sums default_options (two_entries_bytes ++ []) 5 5 two_entries at_start
      (an_entry-IsWhole, (an_entry-IsWhole, tt)) refl (omega arith)
      (unfold entries_bytes encode_to encode_body encode_fixed32 encode_fixed64 encode_varint32
          encode_varint64 in
        omega arith)

-- An entry that was written in parts, with the checksum of its key and its value.
abbrev parts_header : EntryHeader
parts_header = record {
  checksum_header = 0;
  checksum_content = sums.crc32_value (107 ∷ 49 ∷ 4 ∷ 5 ∷ 6 ∷ []);
  flags = 10;
  size_key = 2;
  size_value = 3;
  size_value_compressed = 0;
  size_padding = 0;
  hash = 7;
  size_header_serialized = 0;
}

abbrev parts_entry : Entry
parts_entry = record { header = parts_header; key = 107 ∷ 49 ∷ []; value = 4 ∷ 5 ∷ 6 ∷ [] }

parts_header-IsEncodable : IsEncodable default_options parts_header
unfolding sum
parts_header-IsEncodable = record {
  checksum_content = omega arith;
  flags = omega arith;
  size_key = omega arith;
  size_value = omega arith;
  size_value_compressed = omega arith;
  size_padding = omega arith;
  hash = omega arith;
  stored = λ e. cc;
}

visit_uncompacted_example :
    let r' =
      visit x86 sums default_options
        (entries_bytes x86 sums default_options (parts_entry ∷ []))
        5
        (written x86 sums default_options parts_header parts_header-IsEncodable)
        (length (encode_to x86 sums default_options parts_header))
        at_start in
    (r'.offarray_current ≡ []) × (r'.index ≡ []) × (r'.has_invalid_entries ≡ true)
unfolding sum
visit_uncompacted_example =
    visit_uncompacted x86 sums default_options
      (entries_bytes x86 sums default_options (parts_entry ∷ [])) 5 parts_entry
      parts_header-IsEncodable at_start [] refl (unfold size_value_used in omega arith)
      (unfold is_uncompacted in refl) (unfold entries_bytes in refl)
      (unfold size_value_used in refl)
      (unfold size_value_used encode_to encode_body encode_fixed32 encode_fixed64 encode_varint32
          encode_varint64 in
        omega arith)

abbrev small_options : DatabaseOptions
small_options = record default_options { internal_hstable_header_size = 72 }

abbrev file_header : HsTableHeader
file_header = record {
  crc32 = 0;
  data_format_major = 0;
  data_format_minor = 0;
  filetype = 1;
  timestamp = 77;
}

abbrev entry_and_tail : List ℕ
entry_and_tail = entries_bytes x86 sums small_options (an_entry ∷ []) ++ broken

abbrev unfinished_file : List ℕ
unfinished_file = Header.encode_to x86 sums file_header small_options ++ entry_and_tail

abbrev decoded_header : HsTableHeader
decoded_header =
    Laws.written x86 sums file_header small_options entry_and_tail (omega arith) (omega arith)

small_entry-IsWhole : IsWhole x86 sums small_options an_entry
small_entry-IsWhole = record {
  encodable = record {
    checksum_content = omega arith;
    flags = omega arith;
    size_key = omega arith;
    size_value = omega arith;
    size_value_compressed = omega arith;
    size_padding = omega arith;
    hash = omega arith;
    stored = λ e. cc;
  };
  key = refl;
  nonempty = omega arith;
  value = unfold size_value_offset in refl;
  compacted = unfold is_uncompacted in refl;
}

broken_fails_small : decode_from x86 sums small_options verifying broken ≡ failed decoding_error
unfolding decode_from read_fields read_uint8 read_fixed32 read_varint32 get_fixed32 get_varint32
broken_fails_small = refl

load_file-recover_file_example :
    let e = end x86 sums small_options 5 unfinished_file decoded_header none [] (an_entry ∷ []) in
    let n =
      new_file x86 sums small_options 5 unfinished_file decoded_header none [] (an_entry ∷ []) in
    (recover_file x86 sums small_options unfinished_file 5 2 [] ≡ some (done n))
    × (load_file x86 sums n.file 5 [] ≡ (
      done (report x86 sums (resize e.offset unfinished_file) e.offarray_current 1 false false),
      n.index,
    ))
    × (length n.index ≡ 1)
unfolding get_file_type found_all has_padding
load_file-recover_file_example =
    load_file-recover_file x86 sums small_options 5 unfinished_file decoded_header none []
      (an_entry ∷ []) 0 broken
      ((Laws.decode_header-encode_header x86 sums file_header small_options entry_and_tail
        (omega arith) (omega arith)).0)
      (unfold is_type_large in refl) (omega arith)
      (unfold entries_bytes Header.encode_to Header.encode_body OptionEncoder.encode_to
          OptionEncoder.encode_body encode_to encode_body encode_fixed32 encode_fixed64
          encode_varint32 encode_varint64 in
        omega arith)
      (unfold entries_bytes Header.encode_to Header.encode_body OptionEncoder.encode_to
          OptionEncoder.encode_body encode_to encode_body encode_fixed32 encode_fixed64
          encode_varint32 encode_varint64 in
        omega arith)
      (small_entry-IsWhole, tt)
      (unfold entries_bytes Header.encode_to Header.encode_body OptionEncoder.encode_to
          OptionEncoder.encode_body encode_to encode_body encode_fixed32 encode_fixed64
          encode_varint32 encode_varint64 in
        omega arith)
      (unfold entries_bytes Header.encode_to Header.encode_body OptionEncoder.encode_to
          OptionEncoder.encode_body encode_to encode_body encode_fixed32 encode_fixed64
          encode_varint32 encode_varint64 in
        refl)
      broken_fails_small
      (unfold encode_rows Row.encode_to encode_varint32 encode_varint64 found_all entries_bytes
          encode_to encode_body encode_fixed32 encode_fixed64 in
        omega arith)
