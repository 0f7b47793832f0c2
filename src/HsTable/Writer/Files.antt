-- ===== src/HsTable/Writer/Files.antt =====
-- OpenNewFile, FlushOffsetArray, CloseCurrentFile and FlushCurrentFile.
use kingdb.Prelude.{
  ℕ, ◌+◌, ◌-◌, ◌%◌, ◌^◌, Bool, true, false, not, ◌&&◌, ◌||◌, Option, map, length, take, drop, ltb,
  leb, ◌==◌, if◌then◌else◌,
}
use kingdb.Prelude.Maps.{insert}
use kingdb.Coding.{Platform}
use kingdb.Options.{DatabaseOptions}
use kingdb.Format.Checksums.{Checksums}
use kingdb.Format.Header
use kingdb.Format.Header.{HsTableHeader}
use kingdb.Format.Row.{OffsetArrayRow}
use kingdb.ResourceManager.{
  get_num_writes_in_progress, get_offset_array, has_padding_in_values_of, get_file_size,
  set_file_size,
}
use kingdb.HsTable.OffsetArray.{write_offset_array}
use kingdb.HsTable.Writer.{
  Manager, file_of, increment_sequence_fileid, increment_sequence_timestamp, write_at, pwrite,
  truncate, copy_to_buffer,
}

abbrev pub row_of : ℕ × ℕ → OffsetArrayRow
row_of (hashed_key, offset_entry) = record { hashed_key = hashed_key; offset_entry = offset_entry }

module _ (p : Platform) (cs : Checksums) (db_options : DatabaseOptions) (filetype_default : ℕ) where
  abbrev pub default_header : ℕ → HsTableHeader
  default_header timestamp = record {
    crc32 = 0;
    data_format_major = 0;
    data_format_minor = 0;
    filetype = filetype_default;
    timestamp = timestamp;
  }

  abbrev pub opened_file : Manager → Manager
  opened_file m = record m {
    has_file = true;
    fileid = m.sequence_fileid;
    timestamp = m.sequence_timestamp;
    fd_position = 0;
    offset_start = 0;
    offset_end = db_options.internal_hstable_header_size;
    files = insert m.sequence_fileid (file_of m.sequence_fileid m) m.files;
  }

  unfoldable pub open_new_file : Manager → Option Manager
  unfolding increment_sequence_fileid increment_sequence_timestamp copy_to_buffer
  open_new_file m =
      let m1 = opened_file (increment_sequence_timestamp 1 (increment_sequence_fileid 1 m)) in
      copy_to_buffer 0 (Header.encode_to p cs (default_header m1.timestamp) db_options) m1

  -- The array of offsets behind a file that ends at `size`, and the size of the file with it: what
  -- FlushOffsetArray, WriteMiddleOrLastPart and GetHighestStableFileId have in common.
  unfoldable pub append_offset_array : ℕ → ℕ → ℕ → Bool → Manager → Manager
  append_offset_array fileid size filetype has_invalid m =
      let m1 = truncate fileid size m in
      let (rows, rm1) = get_offset_array fileid m1.resources in
      let array =
        write_offset_array p cs (map row_of rows) (length (file_of fileid m1)) filetype
          (has_padding_in_values_of fileid rm1) has_invalid in
      let m2 = pwrite fileid (length (file_of fileid m1)) array m1 in
      let (filesize, rm2) = get_file_size fileid rm1 in
      record m2 { resources = set_file_size fileid ((filesize + length array) % 2 ^ 64) rm2 }

  unfoldable pub flush_offset_array : Manager → Manager
  unfolding append_offset_array
  flush_offset_array m =
      if not m.has_file
      then m
      else let (num, rm) = get_num_writes_in_progress m.fileid m.resources in
        if num == 0
        then append_offset_array m.fileid m.offset_end filetype_default false
            (record m { resources = set_file_size m.fileid m.offset_end rm })
        else record m { resources = rm }

  unfoldable pub close_current_file : Manager → Manager
  unfolding flush_offset_array
  close_current_file m =
      if not m.has_file
      then m
      else record (flush_offset_array m) { buffer_has_items = false; has_file = false }

  -- The three steps of FlushCurrentFile.
  unfoldable pub write_items : Manager → Manager
  unfolding write_at
  write_items m =
      if not m.buffer_has_items
      then m
      else let bytes = take (m.offset_end - m.offset_start) (drop m.offset_start m.buffer_raw) in
        record (pwrite m.fileid m.fd_position bytes m) {
          fd_position = m.fd_position + length bytes;
          resources = set_file_size m.fileid m.offset_end m.resources;
          offset_start = m.offset_end;
          buffer_has_items = false;
        }

  unfoldable pub pad_file : ℕ → Manager → Manager
  pad_file padding m =
      if padding == 0
      then m
      else let offset_end = (m.offset_end + padding) % 2 ^ 64 in
        record (truncate m.fileid offset_end m) {
          offset_end = offset_end;
          offset_start = offset_end;
          resources = set_file_size m.fileid offset_end m.resources;
          fd_position = offset_end;
        }

  unfoldable pub renew_file : Bool → Manager → Manager
  unfolding close_current_file
  renew_file force_new_file m =
      if leb db_options.storage_hstable_size m.offset_end
        || (force_new_file && ltb db_options.internal_hstable_header_size m.offset_end)
      then close_current_file
          (record m { resources = set_file_size m.fileid m.offset_end m.resources })
      else m

  unfoldable pub flush_current_file : Bool → ℕ → Manager → Manager
  unfolding write_items pad_file renew_file
  flush_current_file force_new_file padding m =
      if not m.has_file
      then m
      else renew_file force_new_file
          (record (pad_file padding (write_items m)) { has_sync_option = false })
