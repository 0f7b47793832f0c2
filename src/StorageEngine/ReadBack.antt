-- ===== src/StorageEngine/ReadBack.antt =====
-- GetEntry gives out the entry that was written at its location.
use kingdb.Prelude.{
  ℕ, ◌+◌, ◌^◌, ◌<◌, ◌≡◌, refl, sym, ap, ◌∙◌, arith, true, none, some, List, ◌++◌, length, take,
  drop, length-append, drop-append, drop-drop, take-append, append_assoc, le→ltb, if◌then◌else◌,
}
use kingdb.Coding.{Platform}
use kingdb.Options.{DatabaseOptions, ReadOptions}
use kingdb.Reader.{done}
use kingdb.Format.Checksums.{Checksums}
use kingdb.Format.Entry.{
  EntryHeader, encode_to, decode_from, are_sizes_valid, is_entry_full, is_type_delete,
  size_value_offset,
}
use kingdb.Format.Entry.Sizes.{are_sizes_valid_iff}
use kingdb.Format.Entry.RoundTrip.{IsEncodable, written, decode_from-encode_to}
use kingdb.StorageEngine.{FoundEntry, read_entry, entry_at, and_then}

module _ (p : Platform) (cs : Checksums) (db_options : DatabaseOptions) (files : ℕ → List ℕ)
    (read_options : ReadOptions) (before key value after : List ℕ) (h : EntryHeader)
    (e : IsEncodable db_options h) where
  abbrev header : List ℕ
  header = encode_to p cs db_options h

  -- A file with the entry in it.
  abbrev pub file : List ℕ
  file = before ++ (header ++ (key ++ (value ++ after)))

  abbrev pub value_offset : ℕ
  value_offset = length before + length header + length key

  -- The entry as it lies in the file.
  abbrev pub stored : ℕ → FoundEntry
  stored fileid = record {
    is_delete = is_type_delete h;
    key = key;
    value = record {
      fileid = fileid;
      offset = value_offset;
      size = h.size_value;
      size_compressed = h.size_value_compressed;
      checksum = h.checksum_content;
      checksum_initial = if read_options.verify_checksums then some (cs.crc32_value key) else none;
    };
  }

  after_header : drop (length before + length header) file ≡ key ++ (value ++ after)
  after_header =
      ap (drop (length before + length header)) (sym (append_assoc before header _))
      ∙ drop-append (length before + length header) (before ++ header) _
          (length-append before header)

  key_there :
      h.size_key ≡ length key → take h.size_key (drop (length before + length header) file) ≡ key
  key_there k = ap (take h.size_key) after_header ∙ take-append h.size_key key _ (sym k)

  length-file :
      length file ≡ length before + length header + length key + length value + length after
  length-file = omega (
    arith,
    length-append before (header ++ (key ++ (value ++ after))),
    length-append header (key ++ (value ++ after)),
    length-append key (value ++ after),
    length-append value after,
  )

  written_offset : size_value_offset (written p cs db_options h e) ≡ size_value_offset h
  written_offset = unfold size_value_offset in refl

  sizes_valid :
      h.size_key ≡ length key
      → 0 < length key
      → size_value_offset h ≡ length value
      → length file < 2 ^ 31
      → are_sizes_valid (length before) (length file) (written p cs db_options h e) ≡ true
  sizes_valid k nonempty v small =
      (are_sizes_valid_iff (length before) (length file) (written p cs db_options h e)
          (omega (arith, length-file)) (omega (arith, length-file, written_offset))).1
        (omega arith, omega (arith, length-file, written_offset))

  written_flags :
      (is_entry_full (written p cs db_options h e) ≡ is_entry_full h)
      × (is_type_delete (written p cs db_options h e) ≡ is_type_delete h)
  written_flags = (unfold is_entry_full in refl, unfold is_type_delete in refl)

  entry_at-written :
      (fileid : ℕ)
      → is_entry_full h ≡ true
      → h.size_key ≡ length key
      → 0 < length key
      → size_value_offset h ≡ length value
      → length file < 2 ^ 31
      → entry_at p cs db_options files read_options file fileid
          (length before)
          (written p cs db_options h e, length header)
        ≡ done (stored fileid)
  unfolding entry_at
  entry_at-written fileid full k nonempty v small =
      rw (sizes_valid k nonempty v small, written_flags.0, written_flags.1, full, key_there k, k)
        refl

  value_there : take (length value) (drop value_offset file) ≡ value
  value_there =
      ap (take (length value)) (
        drop-drop (length before + length header) (length key) file
        ∙ ap (drop (length key)) after_header
        ∙ drop-append (length key) key _ refl)
      ∙ take-append (length value) value after refl

  -- GetEntry, at the place of an entry in a file of less than 2 GiB: it gives out the key and the
  -- place of the value, whose bytes are those that were written, and the status of a delete for a
  -- deletion. The entry is full, its key is not empty, and its value fills the space that the header
  -- gives it.
  pub read_entry-encode_to :
      (fileid : ℕ)
      → is_entry_full h ≡ true
      → h.size_key ≡ length key
      → 0 < length key
      → size_value_offset h ≡ length value
      → length file < 2 ^ 31
      → (read_entry p cs db_options files read_options file fileid (length before)
          ≡ done (stored fileid))
        × (take (length value) (drop value_offset file) ≡ value)
  unfolding read_entry
  read_entry-encode_to fileid full k nonempty v small = (
    rw (le→ltb (length file) (length before) (omega (arith, length-file))) (
        ap
          (λ r.
            and_then r (entry_at p cs db_options files read_options file fileid (length before)))
          (ap (λ b. decode_from p cs db_options read_options b)
              (drop-append (length before) before _ refl)
            ∙ decode_from-encode_to p cs db_options h e read_options (key ++ (value ++ after)) (
                omega
                  (arith, length-file, length-append before (header ++ (key ++ (value ++ after))))))
        ∙ entry_at-written fileid full k nonempty v small),
    value_there,
  )
