-- ===== src/WriteBuffer.antt =====
-- cache/write_buffer.h and cache/write_buffer.cc: two buffers of orders, one that takes the writes
-- and one that is being persisted. What runs under one lock is one step.
pub mod Lookup
pub mod Queue
pub mod ReadBack
mod Runs
use kingdb.Prelude.{
  ℕ, ◌+◌, ◌-◌, ◌*◌, ◌/◌, ◌%◌, ◌^◌, ◌≡◌, ◌≢◌, Bool, true, false, not, ◌&&◌, ◌||◌, Option, none, some,
  List, [], ◌∷◌, ◌++◌, length, ltb, ◌==◌, if◌then◌else◌,
}
use kingdb.Prelude.Int.{ℤ, pos, negsuc, int32}
use kingdb.Status.{Status, status_ok, status_io_error, status_not_found, status_delete_order}
use kingdb.Options.{DatabaseOptions, WriteOptions, WriteBufferMode, adaptive, direct}
use kingdb.Order.{Order, OrderType, put, delete, is_self_contained}

-- `std::array<T, 2>`, whose indices are 0 and 1.
abbrev pub Index : Type 0
Index = Bool

pub record Pair (A : Type 0) : Type 0 where
  pub first : A
  pub second : A

module _ {A : Type 0} where
  abbrev pub at : Index → Pair A → A
  at false p = p.first
  at true p = p.second

  abbrev pub set_at : Index → A → Pair A → Pair A
  set_at false a p = record p { first = a }
  set_at true a p = record p { second = a }

pub record WriteBuffer : Type 0 where
  pub stop_requested : Bool
  pub im_live : Index
  pub im_copy : Index
  pub num_readers : ℕ
  pub buffers : Pair (List Order)
  pub sizes : Pair ℤ

-- The constructor. `buffer_size_` is a function of the options.
abbrev pub new_write_buffer : WriteBuffer
new_write_buffer = record {
  stop_requested = false;
  im_live = false;
  im_copy = true;
  num_readers = 0;
  buffers = record { first = []; second = [] };
  sizes = record { first = pos 0; second = pos 0 };
}

abbrev pub buffer_size : DatabaseOptions → ℕ
buffer_size db_options = db_options.write_buffer_size / 2

abbrev pub buffer_live : WriteBuffer → List Order
buffer_live w = at w.im_live w.buffers

abbrev pub buffer_copy : WriteBuffer → List Order
buffer_copy w = at w.im_copy w.buffers

abbrev pub is_adaptive : WriteBufferMode → Bool
is_adaptive adaptive = true
is_adaptive direct = false

unfoldable pub use_rate_limiter : DatabaseOptions → Bool
use_rate_limiter o = is_adaptive o.write_buffer_mode || ltb 0 o.rate_limit_incoming

abbrev pub is_empty : List Order → Bool
is_empty [] = true
is_empty (o ∷ os) = false

unfoldable pub is_stop_requested_and_buffer_empty : WriteBuffer → Bool
is_stop_requested_and_buffer_empty w =
    w.stop_requested && (is_empty (buffer_live w) && is_empty (buffer_copy w))

-- An `int` as an operand of `uint64_t`.
abbrev pub to_uint64 : ℤ → ℕ
to_uint64 (pos n) = n
to_uint64 (negsuc n) = 2 ^ 64 - (n + 1)

unfoldable pub bytes_arriving : Order → ℕ
bytes_arriving o = (if o.offset_chunk == 0 then length o.key else 0) + length o.chunk

abbrev pub is_large_for : DatabaseOptions → List ℕ → ℕ → Bool
is_large_for db_options key size_value =
    ltb db_options.storage_hstable_size ((length key + size_value) % 2 ^ 64)

-- WritePart, apart from the throttling, which only sleeps, and from the signal to the thread of
-- ProcessingLoop, which is the last component: whether the buffer asks to be flushed.
unfoldable pub write_part :
    DatabaseOptions
    → ℕ
    → WriteOptions
    → OrderType
    → List ℕ
    → List ℕ
    → ℕ
    → ℕ
    → ℕ
    → ℕ
    → WriteBuffer
    → Status × WriteBuffer × Bool
unfolding bytes_arriving
write_part db_options tid write_options op key chunk offset_chunk size_value size_value_compressed
      crc32 w =
    if w.stop_requested
    then (status_io_error "Cannot handle request: WriteBuffer is closing", w, false)
    else let order : Order = record {
      tid = tid;
      write_options = write_options;
      type = op;
      key = key;
      chunk = chunk;
      offset_chunk = offset_chunk;
      size_value = size_value;
      size_value_compressed = size_value_compressed;
      crc32 = crc32;
      is_large = is_large_for db_options key size_value;
    } in
      let size = int32 (to_uint64 (at w.im_live w.sizes) + bytes_arriving order) in
      (
        status_ok,
        record w {
          buffers = set_at w.im_live (buffer_live w ++ (order ∷ [])) w.buffers;
          sizes = set_at w.im_live size w.sizes;
        },
        ltb (buffer_size db_options) (to_uint64 size),
      )

unfoldable pub put_part :
    DatabaseOptions
    → ℕ
    → WriteOptions
    → List ℕ
    → List ℕ
    → ℕ
    → ℕ
    → ℕ
    → ℕ
    → WriteBuffer
    → Status × WriteBuffer × Bool
unfolding write_part
put_part db_options tid write_options key chunk offset_chunk size_value size_value_compressed crc32
      w =
    write_part db_options tid write_options put key chunk offset_chunk size_value
      size_value_compressed crc32 w

unfoldable pub delete_key :
    DatabaseOptions → ℕ → WriteOptions → List ℕ → WriteBuffer → Status × WriteBuffer × Bool
unfolding write_part
delete_key db_options tid write_options key w =
    write_part db_options tid write_options delete key [] 0 0 0 0 w

-- Equality of keys.
unfoldable pub same_bytes : List ℕ → List ℕ → Bool
same_bytes [] [] = true
same_bytes (x ∷ xs) (y ∷ ys) = x == y && same_bytes xs ys
same_bytes _ _ = false

-- The loops of Get: the last order of the buffer with the key.
unfoldable pub find_loop : List ℕ → Option Order → List Order → Option Order
unfolding same_bytes
find_loop key found [] = found
find_loop key found (o ∷ os) = find_loop key (if same_bytes o.key key then some o else found) os

-- What Get gives out: a status, and the value where it is OK.
pub record Value : Type 0 where
  pub chunk : List ℕ
  pub size : ℕ
  pub size_compressed : ℕ

abbrev pub value_of : Order → Value
value_of o = record {
  chunk = o.chunk;
  size = o.size_value;
  size_compressed = o.size_value_compressed;
}

abbrev pub unable : Status × Option Value
unable = (status_not_found "Unable to find entry", none)

abbrev pub answer_live_of : OrderType → Order → Status × Option Value
answer_live_of put o = if is_self_contained o then (status_ok, some (value_of o)) else unable
answer_live_of delete o = (status_delete_order, none)

-- The three branches for an order found in the live buffer.
unfoldable pub answer_live : Order → Status × Option Value
answer_live o = answer_live_of o.type o

-- The branches of the second part, found or not.
unfoldable pub answer_copy : Option Order → Status × Option Value
answer_copy none = unable
answer_copy (some o) = answer_live_of o.type o

unfoldable pub get : List ℕ → WriteBuffer → Status × Option Value
unfolding find_loop answer_live answer_copy
get key w =
    if w.stop_requested
    then (status_io_error "Cannot handle request: WriteBuffer is closing", none)
    else elim (find_loop key none (buffer_live w)) [
      | some o ↦ answer_live o
      | none ↦ answer_copy (find_loop key none (buffer_copy w))
    ]

-- `sizes_[i] == 0`
abbrev pub is_zero : ℤ → Bool
is_zero (pos n) = n == 0
is_zero (negsuc n) = false

-- ProcessingLoop, from the end of its wait to the call of the storage engine: the buffers change
-- roles, and the first order is marked where the flush was asked for.
unfoldable pub swap : WriteBuffer → WriteBuffer
swap w =
    if is_zero (at w.im_copy w.sizes)
    then record w { im_live = w.im_copy; im_copy = w.im_live }
    else w

unfoldable pub mark_sync : Bool → List Order → List Order
mark_sync true (o ∷ os) = record o { write_options = record { sync = true } } ∷ os
mark_sync true [] = []
mark_sync false os = os

unfoldable pub start_flush : Bool → WriteBuffer → WriteBuffer
unfolding swap mark_sync
start_flush force_sync w =
    let w1 = swap w in
    record w1 { buffers = set_at w1.im_copy (mark_sync force_sync (buffer_copy w1)) w1.buffers }

-- ProcessingLoop, once the storage engine has asked for it and no reader is left.
unfoldable pub clear_copy : WriteBuffer → WriteBuffer
clear_copy w = record w {
  sizes = set_at w.im_copy (pos 0) w.sizes;
  buffers = set_at w.im_copy [] w.buffers;
}
