-- ===== src/StorageEngine.antt =====
-- storage/storage_engine.h: reading an entry through the index.
pub mod Lookup
pub mod ReadBack
mod Runs
use kingdb.Prelude.{
  ℕ, zero, suc, ◌+◌, ◌-◌, ◌*◌, ◌/◌, ◌%◌, ◌^◌, bit_and, Bool, true, false, not, ◌&&◌, ◌||◌, Option,
  none, some, List, [], ◌∷◌, ◌++◌, length, take, drop, ltb, leb, ◌==◌, if◌then◌else◌,
}
use kingdb.Coding.{Platform}
use kingdb.Status.{Status, status_io_error, status_not_found}
use kingdb.Options.{DatabaseOptions, ReadOptions}
use kingdb.Reader.{Read, done, failed, out_of_bounds}
use kingdb.Format.Checksums.{Checksums}
use kingdb.Format.Entry.{EntryHeader, decode_from, are_sizes_valid, is_entry_full, is_type_delete}
use kingdb.ResourceManager.{ResourceManager, get_file_size}
use kingdb.WriteBuffer.{same_bytes}

-- The two halves of a location.
abbrev pub fileid_of : ℕ → ℕ
fileid_of location = location / 2 ^ 32 % 2 ^ 32

abbrev pub offset_of : ℕ → ℕ
offset_of location = location % 2 ^ 32

-- The byte array of a value: where it lies, and what is needed to check it.
pub record StoredValue : Type 0 where
  pub fileid : ℕ
  pub offset : ℕ
  pub size : ℕ
  pub size_compressed : ℕ
  pub checksum : ℕ
  pub checksum_initial : Option ℕ

-- An entry as GetEntry gives it out: whether its status is that of a delete, the bytes of its key,
-- and its value.
pub record FoundEntry : Type 0 where
  pub is_delete : Bool
  pub key : List ℕ
  pub value : StoredValue

abbrev pub and_then : {A B : Type 0} → Read A → (A → Read B) → Read B
and_then (done a) f = f a
and_then (failed s) f = failed s
and_then out_of_bounds f = out_of_bounds

-- The result of a lookup: the entry that answers it, and where it lies.
pub record Answer : Type 0 where
  pub entry : FoundEntry
  pub location : ℕ

abbrev pub not_found : Read Answer
not_found = failed (status_not_found "Unable to find the entry in the storage engine")

-- An entry that was read for a key: an answer where the keys agree, and the next one otherwise.
unfoldable pub try_entry :
    List ℕ
    → ℕ
    → Read FoundEntry × ResourceManager
    → (ResourceManager → Read Answer × ResourceManager)
    → Read Answer × ResourceManager
unfolding same_bytes
try_entry key location (done entry, rm) next =
    if same_bytes entry.key key
    then (done (record { entry = entry; location = location }), rm)
    else next rm
try_entry key location (failed s, rm) next = next rm
try_entry key location (out_of_bounds, rm) next = (out_of_bounds, rm)

-- `--it` and the test against the first iterator of the range, for an iterator that is `steps`
-- steps behind the first: `none` where the loop ends. An iterator before the first never meets it.
abbrev pub step_back : ℕ → Option ℕ
step_back zero = some zero
step_back (suc zero) = none
step_back (suc (suc n)) = some (suc n)

-- `std::multimap<uint64_t, uint64_t>` in the order of its iterators: `insert` puts a pair behind
-- those with the same key.
unfoldable pub multimap_insert : ℕ × ℕ → List (ℕ × ℕ) → List (ℕ × ℕ)
multimap_insert (k, v) [] = (k, v) ∷ []
multimap_insert (k, v) ((j, w) ∷ m) =
    let rest = multimap_insert (k, v) m in if ltb k j then (k, v) ∷ ((j, w) ∷ m) else (j, w) ∷ rest

-- `equal_range`, and what lies before it.
unfoldable pub with_hash : ℕ → List (ℕ × ℕ) → List (ℕ × ℕ)
with_hash h [] = []
with_hash h ((j, w) ∷ m) = let rest = with_hash h m in if j == h then (j, w) ∷ rest else rest

unfoldable pub below_hash : ℕ → List (ℕ × ℕ) → List (ℕ × ℕ)
below_hash h [] = []
below_hash h ((j, w) ∷ m) = let rest = below_hash h m in if ltb j h then (j, w) ∷ rest else rest

-- From the last element to the first.
unfoldable pub newest_first : List (ℕ × ℕ) → List (ℕ × ℕ)
newest_first [] = []
newest_first (e ∷ m) = newest_first m ++ (e ∷ [])

module _ (p : Platform) (cs : Checksums) (db_options : DatabaseOptions) (files : ℕ → List ℕ)
    (read_options : ReadOptions) where
  -- GetEntry behind the header: `mapped` is the file.
  unfoldable pub entry_at : List ℕ → ℕ → ℕ → EntryHeader × ℕ → Read FoundEntry
  entry_at mapped fileid offset_file (entry_header, size_header) =
      if not (are_sizes_valid offset_file (length mapped) entry_header)
        || not (is_entry_full entry_header)
      then failed (status_io_error "Entry has invalid header")
      else done (record {
        is_delete = is_type_delete entry_header;
        key = take entry_header.size_key (drop (offset_file + size_header) mapped);
        value = record {
          fileid = fileid;
          offset = offset_file + size_header + entry_header.size_key;
          size = entry_header.size_value;
          size_compressed = entry_header.size_value_compressed;
          checksum = entry_header.checksum_content;
          checksum_initial =
              if read_options.verify_checksums
              then some (
                  cs.crc32_value
                    (take entry_header.size_key (drop (offset_file + size_header) mapped)))
              else none;
        };
      })

  -- A file is mapped up to the size that the resource manager knows.
  unfoldable pub read_entry : List ℕ → ℕ → ℕ → Read FoundEntry
  unfolding entry_at
  read_entry mapped fileid offset_file =
      if ltb (length mapped) offset_file
      then out_of_bounds
      else and_then (decode_from p cs db_options read_options (drop offset_file mapped))
          (entry_at mapped fileid offset_file)

  unfoldable pub get_entry : ℕ → ResourceManager → Read FoundEntry × ResourceManager
  unfolding read_entry
  get_entry location rm =
      let (filesize, rm') = get_file_size (fileid_of location) rm in
      (
        read_entry (take filesize (files (fileid_of location))) (fileid_of location)
            (offset_of location),
        rm',
      )

  -- The loop of GetWithIndex. The list holds what an iterator that moves back comes across; to move
  -- behind its end is undefined.
  unfoldable pub look_back :
      List ℕ → ℕ → List (ℕ × ℕ) → ResourceManager → Read Answer × ResourceManager
  unfolding get_entry try_entry
  look_back key steps [] rm = (out_of_bounds, rm)
  look_back key steps ((hash, location) ∷ rest) rm =
      try_entry key location (get_entry location rm) (λ rm'. elim (step_back steps) [
        | none ↦ (not_found, rm')
        | some n ↦ look_back key n rest rm'
      ])

  -- GetWithIndex on a range of the index and on what lies before it.
  unfoldable pub look_in_range :
      List ℕ → List (ℕ × ℕ) → List (ℕ × ℕ) → ResourceManager → Read Answer × ResourceManager
  unfolding look_back newest_first
  look_in_range key [] below rm = (not_found, rm)
  look_in_range key (e ∷ es) below rm =
      look_back key (length es) (newest_first (e ∷ es) ++ newest_first below) rm

  unfoldable pub get_with_index :
      (List ℕ → ℕ) → List (ℕ × ℕ) → List ℕ → ResourceManager → Read Answer × ResourceManager
  unfolding look_in_range with_hash below_hash
  get_with_index hash_function index key rm =
      look_in_range key (with_hash (hash_function key) index) (below_hash (hash_function key) index)
        rm
