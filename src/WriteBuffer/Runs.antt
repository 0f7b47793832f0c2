-- ===== src/WriteBuffer/Runs.antt =====
-- The write buffer on concrete orders, and the theorems at concrete inputs.
use kingdb.Prelude.{◌≡◌, refl, true, false, none, some, [], ◌∷◌, ◌++◌}
use kingdb.Options.{WriteOptions, default_options}
use kingdb.Status.{status_ok, status_delete_order}
use kingdb.Order.{Order, put, delete, is_self_contained, is_first_part, is_last_part}
use kingdb.WriteBuffer.{
  new_write_buffer, buffer_live, buffer_copy, get, answer_copy, value_of, delete_key, start_flush,
  same_bytes, find_loop, write_part, swap, mark_sync,
}
use kingdb.WriteBuffer.Lookup.{last_order, get-last_order}
use kingdb.WriteBuffer.Queue.{
  System, initial, written, step_write, step_flush, Reachable, reach_initial, reach_step, plains,
  CopyFits, Reachable-order, flushing, accept,
}
use kingdb.WriteBuffer.ReadBack.{get-put_or_delete}

abbrev no_sync : WriteOptions
no_sync = record { sync = false }

abbrev an_order : Order
an_order = record {
  tid = 1;
  write_options = no_sync;
  type = put;
  key = 107 ∷ 49 ∷ [];
  chunk = 1 ∷ 2 ∷ 3 ∷ [];
  offset_chunk = 0;
  size_value = 3;
  size_value_compressed = 0;
  crc32 = 99;
  is_large = false;
}

abbrev deletion : Order
deletion = record an_order { type = delete; chunk = []; size_value = 0; crc32 = 0 }

abbrev one_write : System
one_write = record initial {
  buffer = written default_options an_order new_write_buffer;
  accepted = [] ++ (accept default_options an_order ∷ []);
}

abbrev one_flush : System
one_flush = record one_write {
  buffer = start_flush true one_write.buffer;
  phase = flushing;
  flushed = [] ++ buffer_copy (start_flush true one_write.buffer);
}

abbrev two_writes : System
two_writes = record one_flush {
  buffer = written default_options deletion one_flush.buffer;
  accepted = one_flush.accepted ++ (accept default_options deletion ∷ []);
}

reached : Reachable two_writes
unfolding write_part start_flush swap mark_sync
reached =
    reach_step {s = one_flush} {t = two_writes}
      (reach_step {s = one_write} {t = one_flush}
        (reach_step {s = initial} {t = one_write} reach_initial
          (step_write default_options an_order initial refl))
        (step_flush true one_write refl refl))
      (step_write default_options deletion one_flush refl)

Reachable-order_example :
    (plains two_writes.accepted ≡ plains (two_writes.flushed ++ buffer_live two_writes.buffer))
    × CopyFits flushing two_writes
Reachable-order_example = Reachable-order two_writes reached

get-last_order_example :
    get (107 ∷ 49 ∷ []) two_writes.buffer
    ≡ answer_copy (
        last_order (107 ∷ 49 ∷ []) (buffer_copy two_writes.buffer ++ buffer_live two_writes.buffer))
unfolding write_part start_flush swap mark_sync
get-last_order_example = get-last_order (107 ∷ 49 ∷ []) two_writes.buffer refl

deleted : get (107 ∷ 49 ∷ []) two_writes.buffer ≡ (status_delete_order, none)
unfolding get find_loop same_bytes write_part start_flush swap mark_sync
deleted = refl

get-put_or_delete_example :
    (an_order.type ≡ put
      → is_self_contained an_order ≡ true
      → get an_order.key (written default_options an_order new_write_buffer)
        ≡ (status_ok, some (value_of an_order)))
    × (get an_order.key (delete_key default_options 1 no_sync an_order.key new_write_buffer).1
        ≡ (status_delete_order, none))
get-put_or_delete_example = get-put_or_delete default_options an_order new_write_buffer refl refl

an_order_self_contained : is_self_contained an_order ≡ true
unfolding is_self_contained is_first_part is_last_part
an_order_self_contained = refl
