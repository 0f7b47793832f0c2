-- ===== src/HsTable/Writer/Append.antt =====
-- What the copy of an entry does to the buffer.
use kingdb.Prelude.{
  ℕ, ◌+◌, ◌%◌, ◌^◌, ◌≤◌, ◌≡◌, refl, ap, ◌∙◌, arith, some, List, ◌++◌, length, take, length-append,
  append_assoc,
}
use kingdb.Coding.{Platform}
use kingdb.Options.{DatabaseOptions}
use kingdb.Format.Checksums.{Checksums}
use kingdb.Format.Entry.{EntryHeader, encode_to}
use kingdb.ResourceManager.{add_offset_array}
use kingdb.HsTable.OffsetArray.{location}
use kingdb.HsTable.Writer.{Manager, write_at}
use kingdb.HsTable.Writer.Bytes.{length-write_at, take-write_at, copy_fits}
use kingdb.HsTable.Writer.Parts.{append_to_buffer}

-- The state after entries that only went into the buffer.
pub record Buffered (m : Manager) (bytes : List ℕ) (m' : Manager) : Type 0 where
  pub fileid : m'.fileid ≡ m.fileid
  pub has_file : m'.has_file ≡ m.has_file
  pub fd_position : m'.fd_position ≡ m.fd_position
  pub offset_start : m'.offset_start ≡ m.offset_start
  pub offset_end : m'.offset_end ≡ m.offset_end + length bytes
  pub files : m'.files ≡ m.files
  pub buffer_size : length m'.buffer_raw ≡ length m.buffer_raw
  pub buffer_bytes : take m'.offset_end m'.buffer_raw ≡ take m.offset_end m.buffer_raw ++ bytes

module _ (p : Platform) (cs : Checksums) (db_options : DatabaseOptions) (filetype_default : ℕ)
    (uninitialised : EntryHeader) (stack : List ℕ) (epoch_now : ℕ) (h : EntryHeader)
    (key chunk : List ℕ) (hashed_key : ℕ) (m : Manager) where
  abbrev header : List ℕ
  header = encode_to p cs db_options h

  abbrev entry : List ℕ
  entry = header ++ (key ++ chunk)

  -- The buffer after each of the three copies.
  abbrev buffer1 : List ℕ
  buffer1 = write_at m.offset_end header m.buffer_raw

  abbrev buffer2 : List ℕ
  buffer2 = write_at (m.offset_end + length header) key buffer1

  abbrev buffer3 : List ℕ
  buffer3 = write_at (m.offset_end + length header + length key) chunk buffer2

  abbrev pub appended : Manager
  appended = record m {
    buffer_raw = buffer3;
    resources = add_offset_array m.fileid (hashed_key, m.offset_end % 2 ^ 32) m.resources;
    offset_end = m.offset_end + length header + length key + length chunk;
  }

  module _ (fits : m.offset_end + length entry ≤ length m.buffer_raw) where
    length-entry : length entry ≡ length header + length key + length chunk
    length-entry = omega (arith, length-append header (key ++ chunk), length-append key chunk)

    size1 : length buffer1 ≡ length m.buffer_raw
    size1 = length-write_at m.offset_end header m.buffer_raw (omega (arith, length-entry))

    size2 : length buffer2 ≡ length m.buffer_raw
    size2 =
        length-write_at (m.offset_end + length header) key buffer1
          (omega (arith, length-entry, size1))
        ∙ size1

    pub append_to_buffer-appended :
        append_to_buffer p cs db_options filetype_default uninitialised stack epoch_now h key chunk
          hashed_key m
        ≡ some (location m.fileid m.offset_end, appended)
    unfolding append_to_buffer
    append_to_buffer-appended = rw (copy_fits m.offset_end header m (omega (arith, length-entry))) (
        rw
          (copy_fits (m.offset_end + length header) key (record m { buffer_raw = buffer1 })
            (omega (arith, length-entry, size1)))
          (rw
            (copy_fits (m.offset_end + length header + length key) chunk
              (record m { buffer_raw = buffer2 }) (omega (arith, length-entry, size2)))
            refl))

    bytes3 :
        take (m.offset_end + length header + length key + length chunk) buffer3
        ≡ take m.offset_end m.buffer_raw ++ entry
    bytes3 =
        take-write_at (m.offset_end + length header + length key) chunk buffer2
          (omega (arith, length-entry, size2))
        ∙ ap (λ t. t ++ chunk)
            (take-write_at (m.offset_end + length header) key buffer1
                (omega (arith, length-entry, size1))
              ∙ ap (λ t. t ++ key)
                  (take-write_at m.offset_end header m.buffer_raw (omega (arith, length-entry))))
        ∙ simp append_assoc

    pub appended-Buffered : Buffered m entry appended
    appended-Buffered = record {
      fileid = refl;
      has_file = refl;
      fd_position = refl;
      offset_start = refl;
      offset_end = omega (arith, length-entry);
      files = refl;
      buffer_size =
          length-write_at (m.offset_end + length header + length key) chunk buffer2
            (omega (arith, length-entry, size2))
          ∙ size2;
      buffer_bytes = bytes3;
    }

-- Entries behind entries.
pub Buffered-append :
    (a b : List ℕ) (m m' m'' : Manager)
    → Buffered m a m'
    → Buffered m' b m''
    → Buffered m (a ++ b) m''
Buffered-append a b m m' m'' x y = record {
  fileid = y.fileid ∙ x.fileid;
  has_file = y.has_file ∙ x.has_file;
  fd_position = y.fd_position ∙ x.fd_position;
  offset_start = y.offset_start ∙ x.offset_start;
  offset_end = omega (arith, length-append a b);
  files = y.files ∙ x.files;
  buffer_size = y.buffer_size ∙ x.buffer_size;
  buffer_bytes =
      y.buffer_bytes
      ∙ ap (λ t. t ++ b) x.buffer_bytes
      ∙ append_assoc (take m.offset_end m.buffer_raw) a b;
}
