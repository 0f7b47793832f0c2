-- ===== src/HsTable/Writer/EndToEnd.antt =====
-- GetEntry finds the entries that WriteOrdersAndFlushFile wrote, at the locations that it put into
-- the index.
use kingdb.Prelude.{
  ℕ, ◌+◌, ◌*◌, ◌^◌, ◌<◌, ◌≤◌, ◌≡◌, refl, sym, ap, ◌∙◌, arith, true, false, bit_or, none, some, List,
  [], ◌∷◌, ◌++◌, All, length, take, drop, length-append, length-drop, length-take, append_assoc,
  if◌then◌else◌,
}
use native.Mathlib.Nat.{mod-eq_of_lt}
use kingdb.Prelude.Bits.{bit_or_comm, bit_or_above}
use kingdb.Coding.{Platform}
use kingdb.Options.{DatabaseOptions, ReadOptions}
use kingdb.Order.{Order, OrderType, is_first_part, is_last_part, is_self_contained}
use kingdb.Reader.{done}
use kingdb.Format.Checksums.{Checksums}
use kingdb.Format.Entry.{
  EntryHeader, encode_to, is_entry_full, is_type_delete, is_uncompacted, is_compressed,
  size_value_offset,
}
use kingdb.Format.Entry.RoundTrip.{IsEncodable}
use kingdb.ResourceManager.{get_file_size}
use kingdb.StorageEngine.{FoundEntry, fileid_of, offset_of, read_entry, get_entry}
use kingdb.StorageEngine.ReadBack.{read_entry-encode_to}
use kingdb.HsTable.OffsetArray.{Index, location}
use kingdb.HsTable.Writer.{Manager, file_of}
use kingdb.HsTable.Writer.Bytes.{take_all}
use kingdb.HsTable.Writer.Parts.{small_header}
use kingdb.HsTable.Writer.Orders.{write_orders_and_flush_file}
use kingdb.HsTable.Writer.Small.{IsSmall, header_of, chunk_of, small_entry, small_entries, placed}
use kingdb.HsTable.Writer.Flush.{IsOpen, pending}
use kingdb.HsTable.Writer.Batch.{after_batch, new_index, write_orders-small}

-- The two halves of a location.
location_sum :
    (fileid offset : ℕ)
    → fileid < 2 ^ 32
    → offset < 2 ^ 32
    → location fileid offset ≡ offset + fileid * 2 ^ 32
location_sum fileid offset f o =
    ap (λ n. bit_or n offset) (mod-eq_of_lt (omega arith))
    ∙ bit_or_comm (fileid * 2 ^ 32) offset
    ∙ bit_or_above 32 offset fileid o

location_halves :
    (fileid offset : ℕ)
    → fileid < 2 ^ 32
    → offset < 2 ^ 32
    → (fileid_of (location fileid offset) ≡ fileid) × (offset_of (location fileid offset) ≡ offset)
location_halves fileid offset f o =
    let s = location_sum fileid offset f o in
    (ap fileid_of s ∙ omega arith, ap offset_of s ∙ omega arith)

module _ (p : Platform) (cs : Checksums) (db_options : DatabaseOptions) (filetype_default : ℕ)
    (hash_function : List ℕ → ℕ) (uninitialised : EntryHeader) (stack : List ℕ)
    (epoch_now : ℕ) where
  abbrev one : Order → List ℕ
  one = small_entry p cs db_options filetype_default hash_function uninitialised stack epoch_now

  abbrev all : List Order → List ℕ
  all = small_entries p cs db_options filetype_default hash_function uninitialised stack epoch_now

  abbrev at : ℕ → ℕ → List Order → Index
  at = placed p cs db_options filetype_default hash_function uninitialised stack epoch_now

  all-append : (xs ys : List Order) → all (xs ++ ys) ≡ all xs ++ all ys
  unfolding small_entries
  all-append [] ys = refl
  all-append (x ∷ xs) ys =
      ap (λ t. one x ++ t) (all-append xs ys) ∙ sym (append_assoc (one x) (all xs) (all ys))

  at-append :
      (fileid offset : ℕ) (xs ys : List Order)
      → at fileid offset (xs ++ ys) ≡ at fileid offset xs ++ at fileid (offset + length (all xs)) ys
  unfolding placed small_entries
  at-append fileid offset [] ys = ap (λ o. at fileid o ys) (omega arith)
  at-append fileid offset (x ∷ xs) ys =
      ap (λ t. (hash_function x.key, location fileid offset) ∷ t)
        (at-append fileid (offset + length (one x)) xs ys
          ∙ ap (λ o. at fileid (offset + length (one x)) xs ++ at fileid o ys)
              (omega (arith, length-append (one x) (all xs))))

  -- The header of a whole entry.
  small_header_reads :
      (order : Order) (hashed_key : ℕ)
      → is_self_contained order ≡ true
      → length order.chunk < 2 ^ 64
      → let h =
          small_header p cs db_options filetype_default uninitialised stack epoch_now order
            hashed_key in
        (is_entry_full h ≡ true)
        × (is_type_delete h ≡ false)
        × (size_value_offset h ≡ length order.chunk)
  unfolding small_header is_self_contained is_first_part is_last_part is_entry_full is_type_delete
      size_value_offset is_compressed is_uncompacted
  small_header_reads order hashed_key s l = (refl, refl, ground arith)

  module _ (read_options : ReadOptions) (order : Order) (orders : List Order) (m : Manager)
      (open_file : IsOpen m) (before : List Order) (o : Order) (after : List Order) where
    abbrev pub written : Manager
    written =
        after_batch p cs db_options filetype_default hash_function uninitialised stack epoch_now
          order orders m open_file

    -- Where the entry of `o` starts.
    abbrev pub place : ℕ
    place = m.offset_end + length (all before)

    abbrev pub header_of_o : EntryHeader
    header_of_o =
        small_header p cs db_options filetype_default uninitialised stack epoch_now o
          (hash_function o.key)

    abbrev pub header : List ℕ
    header = encode_to p cs db_options header_of_o

    -- What GetEntry gives out.
    abbrev pub found : FoundEntry
    found = record {
      is_delete = false;
      key = o.key;
      value = record {
        fileid = m.fileid;
        offset = place + length header + length o.key;
        size = o.size_value;
        size_compressed = o.size_value_compressed;
        checksum = o.crc32;
        checksum_initial =
            if read_options.verify_checksums then some (cs.crc32_value o.key) else none;
      };
    }

    abbrev in_front : List ℕ
    in_front = file_of m.fileid m ++ (pending m ++ all before)

    module _ (small : All IsSmall (order ∷ orders)) (pos : 0 < m.fileid) (low : m.fileid < 2 ^ 32)
        (block : m.offset_end + length (all (order ∷ orders)) < db_options.storage_hstable_size)
        (room : db_options.storage_hstable_size ≤ length m.buffer_raw)
        (limit : db_options.storage_hstable_size < 2 ^ 31)
        (split : order ∷ orders ≡ before ++ (o ∷ after)) (put : o.type ≡ OrderType.put)
        (whole : is_self_contained o ≡ true) (nonempty : 0 < length o.key)
        (encodable : IsEncodable db_options header_of_o) where
      entry_bytes : one o ≡ header ++ (o.key ++ o.chunk)
      entry_bytes =
          ap
            (λ t.
              encode_to p cs db_options (
                header_of p cs db_options filetype_default hash_function uninitialised stack
                  epoch_now t o (hash_function o.key))
              ++ (o.key
                  ++ chunk_of p cs db_options filetype_default hash_function uninitialised stack
                      epoch_now t o))
            put

      entries_split :
          all (order ∷ orders) ≡ all before ++ (header ++ (o.key ++ o.chunk) ++ all after)
      unfolding small_entries
      entries_split =
          ap all split
          ∙ all-append before (o ∷ after)
          ∙ ap (λ b. all before ++ (b ++ all after)) entry_bytes

      abbrev pub file : List ℕ
      file = file_of m.fileid written

      abbrev parts : List ℕ
      parts = in_front ++ (header ++ (o.key ++ (o.chunk ++ all after)))

      grown : file ≡ parts
      grown =
          (write_orders-small p cs db_options filetype_default hash_function uninitialised stack
            epoch_now order orders m open_file small pos low block room []).1
          ∙ ap (λ e. file_of m.fileid m ++ (pending m ++ e)) entries_split
          ∙ simp append_assoc

      length-in_front : length in_front ≡ place
      length-in_front = omega (
        arith,
        length-append (file_of m.fileid m) (pending m ++ all before),
        length-append (pending m) (all before),
        length-drop m.offset_start (take m.offset_end m.buffer_raw),
        length-take m.offset_end m.buffer_raw,
        open_file.end-le-buffer,
        open_file.file_length,
        open_file.start-le-end,
      )

      length-entries :
          length (all (order ∷ orders))
          ≡ length (all before) + length header + length o.key + length o.chunk + length (all after)
      length-entries =
          ap length entries_split
          ∙ omega (
            arith,
            length-append (all before) (header ++ (o.key ++ o.chunk) ++ all after),
            length-append (header ++ (o.key ++ o.chunk)) (all after),
            length-append header (o.key ++ o.chunk),
            length-append o.key o.chunk,
          )

      length-parts : length parts < 2 ^ 31
      length-parts = omega (
        arith,
        length-entries,
        length-in_front,
        length-append in_front (header ++ (o.key ++ (o.chunk ++ all after))),
        length-append header (o.key ++ (o.chunk ++ all after)),
        length-append o.key (o.chunk ++ all after),
        length-append o.chunk (all after),
      )

      read_back :
          (read_entry p cs db_options
              (λ i. file_of i written)
              read_options
              parts
              m.fileid
              (length in_front)
            ≡ done (record found {
              value = record found.value {
                offset = length in_front + length header + length o.key;
              };
            }))
          × (take (length o.chunk) (drop (length in_front + length header + length o.key) parts)
              ≡ o.chunk)
      read_back =
          let (full, put_flag, size) =
            small_header_reads o (hash_function o.key) whole (omega (arith, length-entries)) in
          let r =
            read_entry-encode_to p cs db_options (λ i. file_of i written) read_options in_front
              o.key o.chunk (all after) header_of_o encodable m.fileid full
              (unfold small_header in refl) nonempty size length-parts in
          (
            unfold small_header in
                (r.0
                  ∙ ap
                      (λ b. done (record {
                        is_delete = b;
                        key = o.key;
                        value = record {
                          fileid = m.fileid;
                          offset = length in_front + length header + length o.key;
                          size = o.size_value;
                          size_compressed = o.size_value_compressed;
                          checksum = o.crc32;
                          checksum_initial =
                              if read_options.verify_checksums
                              then some (cs.crc32_value o.key)
                              else none;
                        };
                      }))
                      put_flag),
            r.1,
          )

      -- What is written is found again. WriteOrdersAndFlushFile, on a batch of whole entries, none of
      -- them large, that fits into the block of an open file, does not write behind its buffer and
      -- ends in a state and an index of which this holds. For each put among the orders, with a key
      -- that is not empty and sizes within their types, the index has its hash with a location, in
      -- the order of the batch, and GetEntry at that location, on the files of that state and the
      -- sizes that it has recorded, gives out the key of the order, its sizes and its checksum, and a
      -- place for the value where the bytes of the chunk lie. The block is smaller than 2 GiB.
      pub get_entry-write_orders :
          (index : Index)
          → (write_orders_and_flush_file p cs db_options filetype_default hash_function
                uninitialised stack epoch_now
                (order ∷ orders)
                m
                index
              ≡ some (
                written,
                new_index p cs db_options filetype_default hash_function uninitialised stack
                    epoch_now order orders m open_file index,
              ))
            × (new_index p cs db_options filetype_default hash_function uninitialised stack
                  epoch_now order orders m open_file index
                ≡ index
                  ++ (at m.fileid m.offset_end before
                      ++ ((hash_function o.key, location m.fileid place)
                          ∷ at m.fileid (place + length (one o)) after)))
            × ((get_entry p cs db_options
                  (λ i. file_of i written)
                  read_options
                  (location m.fileid place)
                  written.resources).0
                ≡ done found)
            × (take (length o.chunk) (drop (place + length header + length o.key) file) ≡ o.chunk)
      unfolding get_entry placed
      get_entry-write_orders index =
          let (fileid_back, offset_back) =
            location_halves m.fileid place low (omega (arith, length-entries)) in
          let batch =
            write_orders-small p cs db_options filetype_default hash_function uninitialised stack
              epoch_now order orders m open_file small pos low block room index in
          let read = read_entry p cs db_options (λ i. file_of i written) read_options in
          (
            batch.0,
            ap (λ l. index ++ l)
                (ap (at m.fileid m.offset_end) split
                  ∙ at-append m.fileid m.offset_end before (o ∷ after)),
            ap
                  (λ i.
                    read (take (get_file_size i written.resources).0 (file_of i written)) i
                      (offset_of (location m.fileid place)))
                  fileid_back
                ∙ ap (λ a. read (take (get_file_size m.fileid written.resources).0 file) m.fileid a)
                    offset_back
                ∙ ap (λ n. read (take n file) m.fileid place) batch.2
                ∙ ap (λ f. read f m.fileid place)
                    (take_all (length file) file (omega arith) ∙ grown)
                ∙ ap (read parts m.fileid) (sym length-in_front)
                ∙ read_back.0
                ∙ ap
                    (λ a. done (record found {
                      value = record found.value { offset = a + length header + length o.key };
                    }))
                    length-in_front,
            ap (λ f. take (length o.chunk) (drop (place + length header + length o.key) f)) grown
                ∙ ap (λ a. take (length o.chunk) (drop (a + length header + length o.key) parts))
                    (sym length-in_front)
                ∙ read_back.1,
          )
