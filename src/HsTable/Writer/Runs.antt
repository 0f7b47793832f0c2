-- ===== src/HsTable/Writer/Runs.antt =====
-- A batch of orders on a concrete manager, written and read back.
use kingdb.Prelude.{
  ℕ, ◌+◌, ◌*◌, ◌%◌, ◌^◌, ◌<◌, ◌≤◌, ◌≡◌, refl, inl, arith, true, false, none, some, List, [], ◌∷◌,
  ◌++◌, All, length, take, drop, replicate, length-replicate,
}
use kingdb.Samples.{x86, sums, sum}
use kingdb.Coding.{encode_fixed32, encode_fixed64, encode_varint32, encode_varint64}
use kingdb.Options.{DatabaseOptions, default_options}
use kingdb.Reader.{done}
use kingdb.Order.{Order, OrderType, is_first_part, is_last_part, is_self_contained, is_large_order}
use kingdb.Format.Entry.{EntryHeader, encode_to, encode_body}
use kingdb.Format.Entry.RoundTrip.{IsEncodable}
use kingdb.ResourceManager.{reset, get_file_size}
use kingdb.StorageEngine.{get_entry}
use kingdb.HsTable.OffsetArray.{location}
use kingdb.HsTable.Writer.{Manager, file_of}
use kingdb.HsTable.Writer.Parts.{small_header, delete_header}
use kingdb.HsTable.Writer.Orders.{write_orders_and_flush_file}
use kingdb.HsTable.Writer.Small.{IsSmall, small_entry, small_entries, placed}
use kingdb.HsTable.Writer.Flush.{IsOpen, pending}
use kingdb.HsTable.Writer.Batch.{after_batch, new_index, write_orders-small}
use kingdb.HsTable.Writer.EndToEnd.{written, place, found, get_entry-write_orders}

abbrev block_options : DatabaseOptions
block_options = record default_options {
  storage_hstable_size = 1000;
  internal_hstable_header_size = 72;
}

abbrev garbage : EntryHeader
garbage = record {
  checksum_header = 1;
  checksum_content = 2;
  flags = 3;
  size_key = 4;
  size_value = 5;
  size_value_compressed = 6;
  size_padding = 7;
  hash = 8;
  size_header_serialized = 9;
}

abbrev an_order : List ℕ → List ℕ → Order
an_order key chunk = record {
  tid = 1;
  write_options = record { sync = false };
  type = OrderType.put;
  key = key;
  chunk = chunk;
  offset_chunk = 0;
  size_value = length chunk;
  size_value_compressed = 0;
  crc32 = 77;
  is_large = false;
}

abbrev first : Order
first = an_order (1 ∷ []) (2 ∷ 3 ∷ [])

abbrev second : Order
second = an_order (4 ∷ 5 ∷ []) (6 ∷ [])

abbrev third : Order
third = record (an_order (1 ∷ []) []) { type = OrderType.delete }

-- An open file whose header waits in the buffer.
abbrev a_manager : Manager
a_manager = record {
  fileid = 1;
  sequence_fileid = 1;
  timestamp = 1;
  sequence_timestamp = 1;
  is_locked_sequence_timestamp = false;
  has_file = true;
  has_sync_option = false;
  buffer_has_items = false;
  fd_position = 0;
  offset_start = 0;
  offset_end = 72;
  buffer_raw = replicate 2000 0;
  files = (1, []) ∷ [];
  resources = reset;
  key_to_location = [];
  key_to_headersize = [];
}

a_manager-IsOpen : IsOpen a_manager
unfolding kingdb.Prelude.Maps.lookup
a_manager-IsOpen = record {
  has_file = refl;
  start-le-end = omega arith;
  end-le-buffer = omega (arith, length-replicate {A = ℕ} 2000 0);
  fd_position = refl;
  file_length = refl;
}

All-IsSmall : All IsSmall (first ∷ second ∷ third ∷ [])
unfolding is_self_contained is_first_part is_last_part is_large_order
All-IsSmall = (
  record { self_contained = refl; not_large = refl },
  (
    record { self_contained = refl; not_large = refl },
    (record { self_contained = refl; not_large = refl }, tt),
  ),
)

second_header-IsEncodable :
    IsEncodable block_options
      (small_header x86 sums block_options 1 garbage [] 50 second (sum second.key))
unfolding small_header sum
second_header-IsEncodable = record {
  checksum_content = omega arith;
  flags = omega arith;
  size_key = omega arith;
  size_value = omega arith;
  size_value_compressed = omega arith;
  size_padding = omega arith;
  hash = omega arith;
  stored = λ e. cc;
}

room_for_block : block_options.storage_hstable_size ≤ length a_manager.buffer_raw
room_for_block = omega (arith, length-replicate {A = ℕ} 2000 0)

fits_block :
    72
      + length
          (small_entries x86 sums block_options 1 sum garbage [] 50 (first ∷ second ∷ third ∷ []))
    < 1000
unfolding small_entries small_header delete_header encode_to encode_body encode_fixed32
    encode_fixed64 encode_varint32 encode_varint64
fits_block = omega arith

write_orders-small_example :
    let after =
      after_batch x86 sums block_options 1 sum garbage [] 50 first
        (second ∷ third ∷ [])
        a_manager
        a_manager-IsOpen in
    (write_orders_and_flush_file x86 sums block_options 1 sum garbage [] 50
        (first ∷ second ∷ third ∷ [])
        a_manager
        []
      ≡ some (
        after,
        [] ++ placed x86 sums block_options 1 sum garbage [] 50 1 72 (first ∷ second ∷ third ∷ []),
      ))
    × (file_of 1 after
        ≡ file_of 1 a_manager
          ++ (pending a_manager
              ++ small_entries x86 sums block_options 1 sum garbage [] 50
                  (first ∷ second ∷ third ∷ [])))
    × ((get_file_size 1 after.resources).0 ≡ length (file_of 1 after))
    × IsOpen after
write_orders-small_example =
    write_orders-small x86 sums block_options 1 sum garbage [] 50 first (second ∷ third ∷ [])
      a_manager a_manager-IsOpen All-IsSmall (omega arith) (omega arith) fits_block room_for_block
      []

get_entry-write_orders_example :
    let after =
      written x86 sums block_options 1 sum garbage [] 50
        (record { verify_checksums = true })
        first
        (second ∷ third ∷ [])
        a_manager
        a_manager-IsOpen
        (first ∷ [])
        second
        (third ∷ []) in
    let at =
      place x86 sums block_options 1 sum garbage [] 50
        (record { verify_checksums = true })
        first
        (second ∷ third ∷ [])
        a_manager
        a_manager-IsOpen
        (first ∷ [])
        second
        (third ∷ []) in
    (write_orders_and_flush_file x86 sums block_options 1 sum garbage [] 50
        (first ∷ second ∷ third ∷ [])
        a_manager
        []
      ≡ some (
        after,
        new_index x86 sums block_options 1 sum garbage [] 50 first
            (second ∷ third ∷ [])
            a_manager
            a_manager-IsOpen
            [],
      ))
    × (new_index x86 sums block_options 1 sum garbage [] 50 first
          (second ∷ third ∷ [])
          a_manager
          a_manager-IsOpen
          []
        ≡ []
          ++ (placed x86 sums block_options 1 sum garbage [] 50 1 72 (first ∷ [])
              ++ ((sum second.key, location 1 at)
                  ∷ placed x86 sums block_options 1 sum garbage [] 50 1
                      (at + length (small_entry x86 sums block_options 1 sum garbage [] 50 second))
                      (third ∷ []))))
    × ((get_entry x86 sums block_options
          (λ i. file_of i after)
          (record { verify_checksums = true })
          (location 1 at)
          after.resources).0
        ≡ done (
            found x86 sums block_options 1 sum garbage [] 50
              (record { verify_checksums = true })
              first
              (second ∷ third ∷ [])
              a_manager
              a_manager-IsOpen
              (first ∷ [])
              second
              (third ∷ [])))
    × (take 1 (
          drop
            (at
              + length (
                  encode_to x86 sums block_options
                    (small_header x86 sums block_options 1 garbage [] 50 second (sum second.key)))
              + 2)
            (file_of 1 after))
        ≡ 6 ∷ [])
get_entry-write_orders_example =
    get_entry-write_orders x86 sums block_options 1 sum garbage [] 50
      (record { verify_checksums = true }) first (second ∷ third ∷ []) a_manager a_manager-IsOpen
      (first ∷ []) second (third ∷ []) All-IsSmall (omega arith) (omega arith) fits_block
      room_for_block (omega arith) refl refl All-IsSmall.1.0.self_contained (omega arith)
      second_header-IsEncodable []
