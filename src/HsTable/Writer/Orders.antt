-- ===== src/HsTable/Writer/Orders.antt =====
-- WriteOrdersAndFlushFile: the orders of a flush, one after the other.
use kingdb.Prelude.{
  ℕ, true, false, ◌&&◌, ◌||◌, Option, some, none, List, [], ◌∷◌, ◌++◌, ltb, ◌==◌, if◌then◌else◌,
}
use kingdb.Prelude.Maps.{get_or, lookup}
use kingdb.Coding.{Platform}
use kingdb.Options.{DatabaseOptions}
use kingdb.Order.{
  Order, OrderType, is_first_part, is_middle_or_last_part, is_last_part, is_self_contained,
  is_large_order,
}
use kingdb.Format.Checksums.{Checksums}
use kingdb.Format.Entry.{EntryHeader}
use kingdb.ResourceManager.{touch}
use kingdb.HsTable.OffsetArray.{Index}
use kingdb.HsTable.Writer.{Manager, ◌>>=◌, thread_insert, thread_erase, thread_lookup}
use kingdb.HsTable.Writer.Files.{open_new_file, flush_current_file}
use kingdb.HsTable.Writer.Parts.{
  write_first_part_or_small_order, write_first_part_large_order, write_middle_or_last_part,
}

-- `hash_function` is that of the database.
module _ (p : Platform) (cs : Checksums) (db_options : DatabaseOptions) (filetype_default : ℕ)
    (hash_function : List ℕ → ℕ) (uninitialised : EntryHeader) (stack : List ℕ)
    (epoch_now : ℕ) where
  -- The map of the thread, where it has one, gains the key that is looked up.
  abbrev saved_location : Order → Manager → ℕ × Manager
  saved_location order m = elim (lookup order.tid m.key_to_location) [
    | none ↦ (0, m)
    | some keys ↦
        let found = get_or 0 (thread_lookup order.tid order.key m.key_to_location) in
        (
          found,
          record m { key_to_location = thread_insert order.tid order.key found m.key_to_location },
        )
  ]

  -- Case 2: the location in the index is that of the first part, whatever the write returns. The
  -- trace of a missing location gives the thread a map.
  unfoldable pub write_part_at : Order → ℕ → ℕ × Manager → ℕ × Manager
  write_part_at order hashed_key (location, m) =
      if location == 0
      then (0, record m { key_to_location = touch [] order.tid m.key_to_location })
      else (
        location,
        (write_middle_or_last_part p cs db_options filetype_default uninitialised stack epoch_now
            order hashed_key location m).1,
      )

  -- The three categories of parts.
  unfoldable pub write_order : Order → ℕ → Manager → Option (ℕ × Manager)
  write_order order hashed_key m =
      if is_large_order order && is_first_part order
      then some (
          write_first_part_large_order p cs db_options filetype_default uninitialised stack
            epoch_now order hashed_key m)
      else if is_middle_or_last_part order
      then some (write_part_at order hashed_key (saved_location order m))
      else write_first_part_or_small_order p cs db_options filetype_default uninitialised stack
          epoch_now order hashed_key (record m { buffer_has_items = true })

  abbrev pub forget_key : Order → Manager → Manager
  forget_key order m = record m {
    key_to_location = thread_erase order.tid order.key m.key_to_location;
    key_to_headersize = thread_erase order.tid order.key m.key_to_headersize;
  }

  abbrev save_location : Order → OrderType → ℕ → Manager → Manager
  save_location order OrderType.put location m = if location == 0 then m else record m {
    key_to_location = thread_insert order.tid order.key location m.key_to_location;
  }
  save_location order OrderType.delete location m = m

  -- What follows the write: an entry that is complete goes into the index.
  unfoldable pub post_process : Order → ℕ → Index → ℕ × Manager → Manager × Index
  post_process order hashed_key index (location, m) =
      if is_self_contained order || is_last_part order
      then (
        forget_key order m,
        (if location == 0 then index else index ++ ((hashed_key, location) ∷ [])),
      )
      else if is_first_part order
      then (save_location order order.type location m, index)
      else (m, index)

  -- The two tests before the switch.
  unfoldable pub prepare : Manager → Option Manager
  prepare m =
      let m1 =
        if ltb db_options.storage_hstable_size m.offset_end
        then flush_current_file p cs db_options filetype_default true 0 m
        else m in
      if m1.has_file then some m1 else open_new_file p cs db_options filetype_default m1

  abbrev pub after_write : Order → ℕ → Index → ℕ × Manager → Option (Manager × Index)
  after_write order hashed_key index r = some (post_process order hashed_key index r)

  unfoldable pub write_one : Order → Manager → Index → Option (Manager × Index)
  write_one order m index = do
    m1 ← prepare m
    r ← write_order order (hash_function order.key) m1
    after_write order (hash_function order.key) index r

  unfoldable pub write_loop : List Order → Manager → Index → Option (Manager × Index)
  write_loop [] m index = some (m, index)
  write_loop (order ∷ orders) m index = write_one order m index >>= λ r. write_loop orders r.0 r.1

  unfoldable pub write_orders_and_flush_file :
      List Order → Manager → Index → Option (Manager × Index)
  write_orders_and_flush_file orders m index = write_loop orders m index >>= λ r.
      some (flush_current_file p cs db_options filetype_default false 0 r.0, r.1)
