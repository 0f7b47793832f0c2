-- ===== src/HsTable/Writer/Parts.antt =====
-- WriteFirstPartOrSmallOrder, WriteFirstPartLargeOrder and WriteMiddleOrLastPart: where the part of
-- an entry goes. Each returns the location of the entry, 0 where it failed.
use kingdb.Prelude.{
  ℕ, ◌+◌, ◌%◌, ◌^◌, true, false, not, ◌&&◌, Option, some, List, [], ◌++◌, length, take, ◌==◌,
  if◌then◌else◌,
}
use kingdb.Prelude.Int.{pos, negsuc}
use kingdb.Prelude.Maps.{get_or}
use kingdb.Coding.{Platform}
use kingdb.Options.{DatabaseOptions}
use kingdb.Order.{Order, OrderType, is_self_contained, is_last_part, is_large_order}
use kingdb.Format.Checksums.{Checksums}
use kingdb.Format.Entry.{
  EntryHeader, encode_to, calculate_padding_size, set_has_padding, set_is_uncompacted,
  set_type_delete, set_entry_full, is_compressed, size_value_offset,
}
use kingdb.Format.Filetype.{compacted_large}
use kingdb.Format.Header
use kingdb.Format.Header.{HsTableHeader}
use kingdb.ResourceManager.{
  sub64, get_num_writes_in_progress, set_num_writes_in_progress, set_has_padding_in_values,
  add_offset_array, get_file_size, set_file_size, set_file_large, clear_temporary_data_for_file_id,
}
use kingdb.HsTable.OffsetArray.{location}
use kingdb.StorageEngine.{fileid_of, offset_of}
use kingdb.HsTable.Writer.{
  Manager, increment_sequence_fileid, increment_sequence_timestamp, write_at, pwrite, truncate,
  copy_to_buffer, ◌>>=◌, thread_insert, thread_lookup,
}
use kingdb.HsTable.Writer.Files.{flush_current_file, append_offset_array}

-- `uninitialised` is what the memory of a local EntryHeader holds: its constructor clears the flags
-- alone. `stack` is that of a local buffer, and `epoch_now` the clock.
module _ (p : Platform) (cs : Checksums) (db_options : DatabaseOptions) (filetype_default : ℕ)
    (uninitialised : EntryHeader) (stack : List ℕ) (epoch_now : ℕ) where
  abbrev pub new_entry_header : EntryHeader
  new_entry_header = set_entry_full (record uninitialised { flags = 0 })

  -- The fields of a put that every function sets.
  abbrev pub put_header : Order → ℕ → EntryHeader
  put_header order hashed_key = record new_entry_header {
    size_key = length order.key;
    size_value = order.size_value;
    size_value_compressed = order.size_value_compressed;
    hash = hashed_key;
    checksum_content = order.crc32;
  }

  -- A self-contained entry, and the first part of one that is not.
  unfoldable pub small_header : Order → ℕ → EntryHeader
  unfolding set_entry_full set_is_uncompacted set_has_padding
  small_header order hashed_key =
      record (set_has_padding false (set_is_uncompacted false (put_header order hashed_key))) {
        size_padding = 0;
      }

  unfoldable pub first_part_header : Order → ℕ → EntryHeader
  unfolding set_entry_full set_is_uncompacted set_has_padding
  first_part_header order hashed_key =
      record (set_has_padding true (set_is_uncompacted true (put_header order hashed_key))) {
        size_padding = calculate_padding_size order.size_value;
      }

  unfoldable pub delete_header : Order → EntryHeader
  unfolding set_entry_full set_type_delete
  delete_header order =
      record (set_entry_full (set_type_delete (record uninitialised { flags = 0 }))) {
        size_key = length order.key;
        size_value = 0;
        size_value_compressed = 0;
        checksum_content = order.crc32;
      }

  -- The copy of an entry into the buffer, and its place in the array of offsets.
  unfoldable pub append_to_buffer :
      EntryHeader → List ℕ → List ℕ → ℕ → Manager → Option (ℕ × Manager)
  unfolding copy_to_buffer
  append_to_buffer h key chunk hashed_key m = do
    let header = encode_to p cs db_options h
    m1 ← copy_to_buffer m.offset_end header m
    m2 ← copy_to_buffer (m.offset_end + length header) key m1
    m3 ← copy_to_buffer (m.offset_end + length header + length key) chunk m2
    some (
      location m.fileid m.offset_end,
      record m3 {
        resources = add_offset_array m.fileid (hashed_key, m.offset_end % 2 ^ 32) m3.resources;
        offset_end = m.offset_end + length header + length key + length chunk;
      },
    )

  unfoldable pub write_delete : Order → ℕ → Manager → Option (ℕ × Manager)
  unfolding append_to_buffer
  write_delete order hashed_key m = append_to_buffer (delete_header order) order.key [] hashed_key m

  unfoldable pub write_small : Order → ℕ → Manager → Option (ℕ × Manager)
  unfolding append_to_buffer
  write_small order hashed_key m =
      append_to_buffer (small_header order hashed_key) order.key order.chunk hashed_key m

  -- A first part: the space of the whole value is reserved in the file.
  abbrev reserve : Order → ℕ → ℕ × Manager → ℕ × Manager
  reserve order hashed_key (location_out, m) =
      let h = first_part_header order hashed_key in
      let m1 = record m {
        key_to_headersize =
            thread_insert order.tid order.key (length (encode_to p cs db_options h))
              m.key_to_headersize;
        resources = (set_num_writes_in_progress epoch_now m.fileid (pos 1) m.resources).1;
      } in
      (
        location_out,
        flush_current_file p cs db_options filetype_default false
            (sub64 (size_value_offset h) (length order.chunk)) m1,
      )

  unfoldable pub write_first_part : Order → ℕ → Manager → Option (ℕ × Manager)
  unfolding append_to_buffer
  write_first_part order hashed_key m =
      append_to_buffer (first_part_header order hashed_key) order.key order.chunk hashed_key
        (record m { resources = set_has_padding_in_values m.fileid true m.resources })
      >>= λ r. some (reserve order hashed_key r)

  abbrev pub remember_sync : Order → Manager → Manager
  remember_sync order m = record m {
    has_sync_option = if order.write_options.sync then true else m.has_sync_option;
  }

  abbrev pub dispatch : OrderType → Order → ℕ → Manager → Option (ℕ × Manager)
  dispatch OrderType.put order hashed_key m =
      if is_self_contained order
      then write_small order hashed_key m
      else write_first_part order hashed_key m
  dispatch OrderType.delete order hashed_key m = write_delete order hashed_key m

  unfoldable pub write_first_part_or_small_order : Order → ℕ → Manager → Option (ℕ × Manager)
  unfolding write_small write_first_part write_delete
  write_first_part_or_small_order order hashed_key m =
      dispatch order.type order hashed_key (remember_sync order m)

  -- The header of a large entry, before its last part is known.
  unfoldable pub large_header : Order → ℕ → EntryHeader
  unfolding set_entry_full set_is_uncompacted set_has_padding
  large_header order hashed_key = set_has_padding false (
      set_is_uncompacted false (record (put_header order hashed_key) {
        size_padding = 0;
        checksum_header = 0;
        checksum_content = 0;
      }))

  abbrev large_file_header : ℕ → HsTableHeader
  large_file_header timestamp = record {
    crc32 = 0;
    data_format_major = 0;
    data_format_minor = 0;
    filetype = compacted_large;
    timestamp = timestamp;
  }

  -- The four writes of a first part are those of one file, one behind the other.
  unfoldable pub write_first_part_large_order : Order → ℕ → Manager → ℕ × Manager
  unfolding write_at increment_sequence_fileid increment_sequence_timestamp
  write_first_part_large_order order hashed_key m =
      let size = db_options.internal_hstable_header_size in
      let m1 = increment_sequence_timestamp 1 (increment_sequence_fileid 1 m) in
      let fileid = m1.sequence_fileid in
      let buffer =
        write_at 0 (Header.encode_to p cs (large_file_header m1.sequence_timestamp) db_options)
          stack in
      let header = encode_to p cs db_options (large_header order hashed_key) in
      let filesize = (size + length header + length order.key + order.size_value) % 2 ^ 64 in
      let m2 =
        truncate fileid filesize
          (pwrite fileid 0 (take size buffer ++ (header ++ (order.key ++ order.chunk))) m1) in
      let rm = set_file_size fileid filesize m2.resources in
      (
        location fileid size,
        record m2 {
          key_to_headersize =
              thread_insert order.tid order.key (length header) m2.key_to_headersize;
          resources =
              add_offset_array fileid (hashed_key, size % 2 ^ 32)
                (set_num_writes_in_progress epoch_now fileid (pos 1) rm).1;
        },
      )

  -- The header that WriteMiddleOrLastPart writes over the first one.
  unfoldable pub last_part_header : Order → ℕ → EntryHeader
  unfolding set_entry_full set_is_uncompacted set_has_padding is_compressed is_large_order
  last_part_header order hashed_key =
      let h = record (put_header order hashed_key) {
        size_padding = if is_large_order order then 0 else calculate_padding_size order.size_value;
      } in
      if not (is_large_order order) && is_compressed h
      then set_has_padding true (set_is_uncompacted true h)
      else h

  -- The end of an entry: the array of offsets of a file that waited for it alone.
  unfoldable pub finish_file : Order → ℕ → Manager → Manager
  unfolding append_offset_array
  finish_file order fileid m =
      let (num, rm) = set_num_writes_in_progress epoch_now fileid (negsuc 0) m.resources in
      let m1 = record m { resources = rm } in
      if not (fileid == m.fileid) && (num == 0)
      then (let filetype = if is_large_order order then compacted_large else filetype_default in
          let (filesize, rm1) = get_file_size fileid rm in
          let m2 =
            append_offset_array p cs db_options filetype_default fileid filesize filetype false
              (record m1 { resources = rm1 }) in
          record m2 {
            resources =
                clear_temporary_data_for_file_id fileid (
                  if is_large_order order
                  then set_file_large fileid m2.resources
                  else m2.resources);
          })
      else m1

  -- A compressed large entry: the file is cut to what was written.
  abbrev shrink_file : Order → EntryHeader → ℕ → ℕ → Manager → Manager
  shrink_file order h fileid size_header m =
      if is_large_order order && is_compressed h
      then (let filesize =
            (db_options.internal_hstable_header_size
              + size_header
              + length order.key
              + order.size_value_compressed)
            % 2 ^ 64 in
          truncate fileid filesize
            (record m { resources = set_file_size fileid filesize m.resources }))
      else m

  unfoldable pub write_last_header : Order → ℕ → ℕ → ℕ → Manager → ℕ × Manager
  unfolding finish_file is_compressed is_large_order
  write_last_header order hashed_key location_in size_header m =
      let h = last_part_header order hashed_key in
      let header = encode_to p cs db_options h in
      let fileid = fileid_of location_in in
      let m1 =
        if not (is_large_order order) && is_compressed h
        then record m { resources = set_has_padding_in_values m.fileid true m.resources }
        else m in
      if not (length header == size_header) then (0, m1) else (
        location_in,
        finish_file order fileid (
            shrink_file order h fileid size_header
              (pwrite fileid (offset_of location_in) header m1)),
      )

  -- The part itself, wherever it belongs. A key without a header size is given the size 0.
  unfoldable pub write_middle_or_last_part : Order → ℕ → ℕ → Manager → ℕ × Manager
  unfolding write_at write_last_header
  write_middle_or_last_part order hashed_key location_in m =
      let fileid = fileid_of location_in in
      let (num, rm) = get_num_writes_in_progress fileid m.resources in
      let m0 = if fileid == m.fileid then m else record m { resources = rm } in
      if not (fileid == m.fileid) && (num == 0)
      then (0, m0)
      else let size_header = get_or 0 (thread_lookup order.tid order.key m0.key_to_headersize) in
        let m1 = record m0 {
          key_to_headersize = thread_insert order.tid order.key size_header m0.key_to_headersize;
        } in
        let m2 =
          pwrite fileid
            (offset_of location_in + size_header + length order.key + order.offset_chunk)
            order.chunk m1 in
        if is_last_part order
        then write_last_header order hashed_key location_in size_header m2
        else (location_in, m2)
