-- ===== src/HsTable/Writer/Batch.antt =====
-- WriteOrdersAndFlushFile over a batch of whole, small entries.
use kingdb.Prelude.{
  ℕ, ◌+◌, ◌-◌, ◌^◌, ◌<◌, ◌≤◌, ◌≡◌, refl, sym, ap, ◌∙◌, arith, true, false, some, List, [], ◌∷◌,
  ◌++◌, All, length, take, length-append, length-drop, length-take,
}
use kingdb.Prelude.Maps.{get_or, lookup, insert, lookup-insert}
use kingdb.Coding.{Platform}
use kingdb.Options.{DatabaseOptions}
use kingdb.Order.{Order}
use kingdb.Format.Checksums.{Checksums}
use kingdb.Format.Entry.{EntryHeader}
use kingdb.ResourceManager.{get_file_size, set_file_size}
use kingdb.HsTable.OffsetArray.{Index}
use kingdb.HsTable.Writer.{Manager, file_of, ◌>>=◌}
use kingdb.HsTable.Writer.Files.{flush_current_file}
use kingdb.HsTable.Writer.Orders.{write_orders_and_flush_file}
use kingdb.HsTable.Writer.Append.{Buffered}
use kingdb.HsTable.Writer.Small.{
  IsSmall, small_entries, placed, loop_state, loop_state-has_items, loop-Buffered, write_loop-small,
}
use kingdb.HsTable.Writer.Flush.{
  IsOpen, pending, file_of-insert, pending-Buffered, Buffered-IsOpen, flush_current_file-flushed,
}

recorded_size :
    (fileid filesize : ℕ) (m : Manager)
    → (get_file_size fileid (set_file_size fileid filesize m.resources)).0 ≡ filesize
unfolding get_file_size set_file_size
recorded_size fileid filesize m =
    ap (get_or 0) (lookup-insert fileid fileid filesize _) ∙ ground arith

module _ (p : Platform) (cs : Checksums) (db_options : DatabaseOptions) (filetype_default : ℕ)
    (hash_function : List ℕ → ℕ) (uninitialised : EntryHeader) (stack : List ℕ) (epoch_now : ℕ)
    (order : Order) (orders : List Order) (m : Manager) (open_file : IsOpen m) where
  abbrev pub entries : List ℕ
  entries =
      small_entries p cs db_options filetype_default hash_function uninitialised stack epoch_now
        (order ∷ orders)

  abbrev in_buffer : Manager
  in_buffer =
      loop_state p cs db_options filetype_default hash_function uninitialised stack epoch_now
        (order ∷ orders) m

  -- The state behind the call.
  abbrev pub after_batch : Manager
  after_batch = record in_buffer {
    files =
        insert in_buffer.fileid (file_of in_buffer.fileid in_buffer ++ pending in_buffer)
          in_buffer.files;
    fd_position = in_buffer.offset_end;
    resources = set_file_size in_buffer.fileid in_buffer.offset_end in_buffer.resources;
    offset_start = in_buffer.offset_end;
    buffer_has_items = false;
    has_sync_option = false;
  }

  abbrev pub new_index : Index → Index
  new_index index =
      index
      ++ placed p cs db_options filetype_default hash_function uninitialised stack epoch_now
          m.fileid m.offset_end (order ∷ orders)

  module _ (small : All IsSmall (order ∷ orders)) (pos : 0 < m.fileid) (low : m.fileid < 2 ^ 32)
      (block : m.offset_end + length entries < db_options.storage_hstable_size)
      (room : db_options.storage_hstable_size ≤ length m.buffer_raw) where
    buffered : Buffered m entries in_buffer
    buffered =
        loop-Buffered p cs db_options filetype_default hash_function uninitialised stack epoch_now
          (order ∷ orders) m (omega arith)

    still_open : IsOpen in_buffer
    still_open = Buffered-IsOpen m in_buffer entries open_file buffered (omega arith)

    has_items : in_buffer.buffer_has_items ≡ true
    unfolding loop_state
    has_items =
        loop_state-has_items p cs db_options filetype_default hash_function uninitialised stack
          epoch_now orders _ refl

    runs :
        (index : Index)
        → write_orders_and_flush_file p cs db_options filetype_default hash_function uninitialised
            stack epoch_now
            (order ∷ orders)
            m
            index
          ≡ some (after_batch, new_index index)
    unfolding write_orders_and_flush_file
    runs index =
        ap
          (λ r.
            r >>= λ r. some (flush_current_file p cs db_options filetype_default false 0 r.0, r.1))
          (write_loop-small p cs db_options filetype_default hash_function uninitialised stack
            epoch_now (order ∷ orders) m index small open_file.has_file pos low (omega arith) room)
        ∙ ap (λ s. some (s, new_index index))
            (flush_current_file-flushed p cs db_options filetype_default in_buffer still_open
              has_items (omega (arith, buffered.offset_end)))

    same_file : file_of in_buffer.fileid in_buffer ≡ file_of m.fileid m
    same_file =
        ap (λ f. get_or [] (lookup in_buffer.fileid f)) buffered.files
        ∙ ap (λ i. get_or [] (lookup i m.files)) buffered.fileid

    grown : file_of m.fileid after_batch ≡ file_of m.fileid m ++ (pending m ++ entries)
    grown =
        ap (λ i. get_or [] (lookup i after_batch.files)) (sym buffered.fileid)
        ∙ file_of-insert in_buffer.fileid _ in_buffer
        ∙ ap (λ f. f ++ pending in_buffer) same_file
        ∙ ap (λ q. file_of m.fileid m ++ q)
            (pending-Buffered m in_buffer entries open_file buffered)

    length-pending : length (pending m) ≡ m.offset_end - m.offset_start
    length-pending =
        length-drop m.offset_start (take m.offset_end m.buffer_raw)
        ∙ omega (arith, length-take m.offset_end m.buffer_raw, open_file.end-le-buffer)

    length-grown : length (file_of m.fileid after_batch) ≡ m.offset_end + length entries
    length-grown =
        ap length grown
        ∙ omega (
          arith,
          length-append (file_of m.fileid m) (pending m ++ entries),
          length-append (pending m) entries,
          length-pending,
          open_file.file_length,
          open_file.start-le-end,
        )

    open_again : IsOpen after_batch
    open_again = record {
      has_file = still_open.has_file;
      start-le-end = omega arith;
      end-le-buffer = still_open.end-le-buffer;
      fd_position = refl;
      file_length =
          ap (λ i. length (get_or [] (lookup i after_batch.files))) buffered.fileid
          ∙ length-grown
          ∙ sym buffered.offset_end;
    }

    size_known :
        (get_file_size m.fileid after_batch.resources).0 ≡ length (file_of m.fileid after_batch)
    size_known =
        ap (λ i. (get_file_size i after_batch.resources).0) (sym buffered.fileid)
        ∙ recorded_size in_buffer.fileid in_buffer.offset_end in_buffer
        ∙ buffered.offset_end
        ∙ sym length-grown

    -- WriteOrdersAndFlushFile on a batch of whole entries, none of them large, that fit into the
    -- block of an open file: it does not write behind its buffer, the file grows by what waited in
    -- the buffer and by the entries, one behind the other in their order, the index gains one pair
    -- for each, with the place where its entry starts, the size of the file is recorded, and the
    -- file stays open for the next batch.
    pub write_orders-small :
        (index : Index)
        → (write_orders_and_flush_file p cs db_options filetype_default hash_function uninitialised
              stack epoch_now
              (order ∷ orders)
              m
              index
            ≡ some (after_batch, new_index index))
          × (file_of m.fileid after_batch ≡ file_of m.fileid m ++ (pending m ++ entries))
          × ((get_file_size m.fileid after_batch.resources).0
              ≡ length (file_of m.fileid after_batch))
          × IsOpen after_batch
    write_orders-small index = (runs index, grown, size_known, open_again)
