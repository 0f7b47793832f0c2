-- ===== src/StorageEngine/Runs.antt =====
-- The storage engine on concrete files, and the theorems at concrete inputs.
use kingdb.Prelude.{ℕ, ◌+◌, ◌*◌, ◌^◌, ◌≡◌, refl, ap, ◌∙◌, arith, true, List, [], ◌∷◌, take, drop}
use kingdb.Samples.{x86, sums}
use kingdb.Coding.{encode_fixed32, encode_fixed64, encode_varint32, encode_varint64}
use kingdb.Options.{ReadOptions, default_options}
use kingdb.Reader.{done, out_of_bounds}
use kingdb.Format.Entry.{EntryHeader, encode_body, encode_to, size_value_offset, is_entry_full}
use kingdb.Format.Entry.RoundTrip.{IsEncodable}
use kingdb.Prelude.Maps.{lookup, insert}
use kingdb.ResourceManager.{ResourceManager, reset, get_file_size}
use kingdb.WriteBuffer.{same_bytes}
use kingdb.StorageEngine.{
  FoundEntry, read_entry, get_entry, try_entry, get_with_index, with_hash, below_hash,
  multimap_insert, newest_first,
}
use kingdb.StorageEngine.ReadBack.{file, value_offset, stored, read_entry-encode_to}
use kingdb.StorageEngine.Lookup.{
  first_answer, get_with_index-first_answer, get_with_index_single, get_with_index-multimap_insert,
}

abbrev reading : ReadOptions
reading = record { verify_checksums = true }

abbrev some_key : List ℕ
some_key = 107 ∷ 49 ∷ []

abbrev some_header : EntryHeader
some_header = record {
  checksum_header = 0;
  checksum_content = 0xdeadbeef;
  flags = 8;
  size_key = 2;
  size_value = 3;
  size_value_compressed = 0;
  size_padding = 0;
  hash = 7;
  size_header_serialized = 0;
}

some_header-IsEncodable : IsEncodable default_options some_header
some_header-IsEncodable = record {
  checksum_content = omega arith;
  flags = omega arith;
  size_key = omega arith;
  size_value = omega arith;
  size_value_compressed = omega arith;
  size_padding = omega arith;
  hash = omega arith;
  stored = λ e. cc;
}

abbrev some_bytes : List ℕ
some_bytes =
    file x86 sums default_options (λ f. []) reading (1 ∷ 2 ∷ []) some_key (4 ∷ 5 ∷ 6 ∷ []) (9 ∷ [])
      some_header some_header-IsEncodable

read_entry-encode_to_example :
    (read_entry x86 sums default_options (λ f. []) reading some_bytes 5 2
      ≡ done (
          stored x86 sums default_options
            (λ f. [])
            reading
            (1 ∷ 2 ∷ [])
            some_key
            (4 ∷ 5 ∷ 6 ∷ [])
            (9 ∷ [])
            some_header
            some_header-IsEncodable
            5))
    × (take 3 (
          drop
            (value_offset x86 sums default_options
              (λ f. [])
              reading
              (1 ∷ 2 ∷ [])
              some_key
              (4 ∷ 5 ∷ 6 ∷ [])
              (9 ∷ [])
              some_header
              some_header-IsEncodable)
            some_bytes)
        ≡ 4 ∷ 5 ∷ 6 ∷ [])
read_entry-encode_to_example =
    read_entry-encode_to x86 sums default_options (λ f. []) reading (1 ∷ 2 ∷ []) some_key
      (4 ∷ 5 ∷ 6 ∷ []) (9 ∷ []) some_header some_header-IsEncodable 5 (unfold is_entry_full in refl)
      refl (omega arith) (unfold size_value_offset in refl)
      (unfold encode_to encode_body encode_fixed32 encode_fixed64 encode_varint32 encode_varint64 in
        omega arith)

abbrev files : ℕ → List ℕ
files f = some_bytes

abbrev known : ResourceManager
known = record reset { filesizes = (5, 33) ∷ [] }

-- Every key has the same hash.
abbrev constant_hash : List ℕ → ℕ
constant_hash key = 7

abbrev here : ℕ
here = 5 * 2 ^ 32 + 2

some_take : take 33 some_bytes ≡ some_bytes
unfolding encode_to encode_body encode_fixed32 encode_fixed64 encode_varint32 encode_varint64
some_take = refl

get_with_index-first_answer_example :
    get_with_index x86 sums default_options files reading constant_hash
      ((7, 3) ∷ (7, here) ∷ [])
      some_key
      known
    ≡ first_answer x86 sums default_options files reading some_key
        (newest_first ((7, here) ∷ []))
        known
get_with_index-first_answer_example =
    get_with_index-first_answer x86 sums default_options files reading constant_hash
      ((7, 3) ∷ (7, here) ∷ []) some_key (7, 3) ((7, here) ∷ []) known (unfold with_hash in refl)
      (omega arith)

get_with_index_single_example :
    get_with_index x86 sums default_options files reading constant_hash
      ((7, here) ∷ [])
      some_key
      known
    ≡ try_entry some_key here
        (get_entry x86 sums default_options files reading here known)
        (λ rm. (out_of_bounds, rm))
get_with_index_single_example =
    get_with_index_single x86 sums default_options files reading constant_hash ((7, here) ∷ [])
      some_key 7 here known (unfold with_hash in refl) (unfold below_hash in refl)

abbrev here_entry : FoundEntry
here_entry =
    stored x86 sums default_options (λ f. []) reading (1 ∷ 2 ∷ []) some_key (4 ∷ 5 ∷ 6 ∷ [])
      (9 ∷ []) some_header some_header-IsEncodable 5

read_here : get_entry x86 sums default_options files reading here known ≡ (done here_entry, known)
unfolding get_entry get_file_size lookup insert
read_here =
    ap (λ b. (read_entry x86 sums default_options files reading b 5 2, known)) some_take
    ∙ ap (λ r. (r, known)) read_entry-encode_to_example.0

get_with_index-multimap_insert_example :
    get_with_index x86 sums default_options files reading constant_hash
      (multimap_insert (7, here) ((3, 1) ∷ (7, 3) ∷ (9, 4) ∷ []))
      some_key
      known
    ≡ (done (record { entry = here_entry; location = here }), known)
get_with_index-multimap_insert_example =
    get_with_index-multimap_insert x86 sums default_options files reading constant_hash
      ((3, 1) ∷ (7, 3) ∷ (9, 4) ∷ []) some_key here known known here_entry
      ((omega arith, (omega arith, tt)), ((omega arith, tt), (tt, tt))) read_here
      (unfold same_bytes in refl)
