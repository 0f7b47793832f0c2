-- ===== src/HsTable/OffsetArray.antt =====
-- WriteOffsetArray and LoadFile: the index at the end of a HSTable. A file is the list of its bytes,
-- and the calls of the system succeed.
pub mod Rows
pub mod RoundTrip
use kingdb.Prelude.{
  ℕ, zero, suc, ◌+◌, ◌-◌, ◌*◌, ◌%◌, ◌^◌, bit_or, Bool, true, false, List, [], ◌∷◌, ◌++◌, length,
  take, drop, ltb, ◌==◌, not, if◌then◌else◌,
}
use kingdb.Coding.{Platform, encode_fixed32}
use kingdb.Status.{status_io_error}
use kingdb.Reader.{Read, done, failed, out_of_bounds}
use kingdb.Reader.Fields.{◌>>=◌}
use kingdb.Format.Checksums.{Checksums}
use kingdb.Format.Footer
use kingdb.Format.Footer.{
  HsTableFooter, footer_size, is_type_large, is_type_compacted, set_has_padding_in_values,
  set_has_invalid_entries,
}
use kingdb.Format.Row
use kingdb.Format.Row.{OffsetArrayRow}

abbrev pub magic_number : ℕ
magic_number = 0x4d454f57

-- The rows, one behind the other.
unfoldable pub encode_rows : List OffsetArrayRow → List ℕ
encode_rows [] = []
encode_rows (r ∷ rs) = Row.encode_to r ++ encode_rows rs

abbrev pub flag_if : Bool → (HsTableFooter → HsTableFooter) → HsTableFooter → HsTableFooter
flag_if b set f = if b then set f else f

-- The footer for rows that start at `position`, before its checksum is known.
unfoldable pub footer_of : List OffsetArrayRow → ℕ → ℕ → Bool → Bool → HsTableFooter
unfolding set_has_padding_in_values set_has_invalid_entries
footer_of rows position filetype has_padding has_invalid =
    flag_if has_invalid set_has_invalid_entries (
      flag_if has_padding set_has_padding_in_values (record {
        filetype = filetype;
        flags = 0;
        offset_indexes = position;
        num_entries = length rows;
        magic_number = magic_number;
        crc32 = 0;
      }))

-- Where an entry lies: the file in the high half of 64 bits, its offset in the low half.
abbrev pub location : ℕ → ℕ → ℕ
location fileid offset = bit_or (fileid * 2 ^ 32 % 2 ^ 64) offset

-- `std::multimap<uint64_t, uint64_t>`, in the order of the insertions.
abbrev pub Index : Type 0
Index = List (ℕ × ℕ)

-- What LoadFile reports of the file: its size, and whether it is large and compacted.
pub record Loaded : Type 0 where
  pub filesize : ℕ
  pub is_file_large : Bool
  pub is_file_compacted : Bool

abbrev pub loaded_from : List ℕ → HsTableFooter → Read (Unit {0}) × Index → Read Loaded × Index
loaded_from file footer (r, index) = (
  r >>= (λ _. done (record {
    filesize = length file;
    is_file_large = is_type_large footer;
    is_file_compacted = is_type_compacted footer;
  })),
  index,
)

module _ (p : Platform) (cs : Checksums) where
  -- The bytes that WriteOffsetArray appends to a file of `position` bytes; its `size_out` is their
  -- number.
  unfoldable pub write_offset_array : List OffsetArrayRow → ℕ → ℕ → Bool → Bool → List ℕ
  unfolding encode_rows footer_of
  write_offset_array rows position filetype has_padding has_invalid =
      let bytes =
        encode_rows rows
        ++ Footer.encode_to p (footer_of rows position filetype has_padding has_invalid) in
      bytes ++ encode_fixed32 p (cs.crc32_value bytes)

  -- The loop of LoadFile: the rows that were read before a failure stay in the index.
  unfoldable pub load_rows : List ℕ → ℕ → ℕ → ℕ → Index → Read (Unit {0}) × Index
  load_rows file fileid zero offset_index index = (done tt, index)
  load_rows file fileid (suc n) offset_index index =
      elim (Row.decode_from (drop offset_index file)) [
        | done (row, length_row) ↦
            load_rows file fileid n ((offset_index + length_row) % 2 ^ 64)
              (index ++ ((row.hashed_key, location fileid row.offset_entry) ∷ []))
        | failed s ↦ (failed s, index)
        | out_of_bounds ↦ (out_of_bounds, index)
      ]

  -- The checks of the footer. A checksum over more bytes than there are behind `offset_indexes` is
  -- a read out of bounds.
  unfoldable pub check_footer : List ℕ → ℕ → HsTableFooter → Index → Read Loaded × Index
  unfolding load_rows
  check_footer file fileid footer index =
      if not (footer.magic_number == magic_number)
      then (failed (status_io_error "Invalid footer"), index)
      else if ltb (length file) (footer.offset_indexes + 4)
      then (out_of_bounds, index)
      else if not (
          cs.crc32_value
            (take (length file - footer.offset_indexes - 4) (drop footer.offset_indexes file))
          == footer.crc32)
      then (failed (status_io_error "Invalid footer"), index)
      else loaded_from file footer
          (load_rows file fileid footer.num_entries footer.offset_indexes index)

  -- LoadFile: the index after the call is part of the result, failed or not. A file smaller than a
  -- footer puts the first load before the file.
  unfoldable pub load_file : List ℕ → ℕ → Index → Read Loaded × Index
  unfolding check_footer
  load_file file fileid index =
      if ltb (length file) footer_size
      then (out_of_bounds, index)
      else elim (Footer.decode_from p (drop (length file - footer_size) file)) [
        | done footer ↦ check_footer file fileid footer index
        | failed s ↦ (failed s, index)
        | out_of_bounds ↦ (out_of_bounds, index)
      ]
