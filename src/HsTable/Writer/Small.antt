-- ===== src/HsTable/Writer/Small.antt =====
-- Orders that are whole entries and not large: the loop of WriteOrdersAndFlushFile copies them into
-- the buffer, one behind the other.
use kingdb.Prelude.{
  ℕ, ◌+◌, ◌*◌, ◌%◌, ◌^◌, ◌<◌, ◌≤◌, ◌≡◌, refl, sym, ap, ◌∙◌, arith, Bool, true, false, ◌&&◌, some,
  List, [], ◌∷◌, ◌++◌, All, length, take, length-append, append_assoc, append-nil, le→ltb, ◌==◌,
  if◌then◌else◌,
}
use native.Mathlib.Nat.{mod-eq_of_lt}
use kingdb.Prelude.Bits.{le-bit_or}
use kingdb.Coding.{Platform}
use kingdb.Options.{DatabaseOptions}
use kingdb.Order.{
  Order, OrderType, is_first_part, is_middle_or_last_part, is_self_contained, is_large_order,
}
use kingdb.Format.Checksums.{Checksums}
use kingdb.Format.Entry.{EntryHeader, encode_to}
use kingdb.HsTable.OffsetArray.{Index, location}
use kingdb.HsTable.Writer.{Manager, ◌>>=◌}
use kingdb.HsTable.Writer.Parts.{
  small_header, delete_header, append_to_buffer, write_small, write_delete, remember_sync, dispatch,
  write_first_part_or_small_order,
}
use kingdb.HsTable.Writer.Orders.{
  prepare, write_order, forget_key, post_process, write_one, write_loop,
}
use kingdb.HsTable.Writer.Append.{
  Buffered, appended, append_to_buffer-appended, appended-Buffered, Buffered-append,
}

pub record IsSmall (order : Order) : Type 0 where
  pub self_contained : is_self_contained order ≡ true
  pub not_large : is_large_order order ≡ false

first_part : (order : Order) → is_self_contained order ≡ true → is_first_part order ≡ true
unfolding is_self_contained
first_part order h = ground arith

never_large :
    (order : Order)
    → is_large_order order ≡ false
    → (is_large_order order && is_first_part order) ≡ false
never_large order h = rw h refl

never_later : (order : Order) → is_first_part order ≡ true → is_middle_or_last_part order ≡ false
unfolding is_middle_or_last_part
never_later order h = rw h refl

third_branch :
    {A : Type 0} (b c : Bool) (x y z : A)
    → b ≡ false
    → c ≡ false
    → (if b then x else if c then y else z) ≡ z
third_branch b c x y z h k = rw (h, k) refl

pub location_ne_zero :
    (fileid offset : ℕ) → 0 < fileid → fileid < 2 ^ 32 → (location fileid offset == 0) ≡ false
location_ne_zero fileid offset pos small =
    let shifted : fileid * 2 ^ 32 % 2 ^ 64 ≡ fileid * 2 ^ 32 = mod-eq_of_lt (omega arith) in
    ground (arith, le-bit_or (fileid * 2 ^ 32 % 2 ^ 64) offset)

module _ (p : Platform) (cs : Checksums) (db_options : DatabaseOptions) (filetype_default : ℕ)
    (hash_function : List ℕ → ℕ) (uninitialised : EntryHeader) (stack : List ℕ)
    (epoch_now : ℕ) where
  -- The header and the bytes of the entry that an order becomes.
  abbrev pub header_of : OrderType → Order → ℕ → EntryHeader
  header_of OrderType.put order hashed_key =
      small_header p cs db_options filetype_default uninitialised stack epoch_now order hashed_key
  header_of OrderType.delete order hashed_key =
      delete_header p cs db_options filetype_default uninitialised stack epoch_now order

  abbrev pub chunk_of : OrderType → Order → List ℕ
  chunk_of OrderType.put order = order.chunk
  chunk_of OrderType.delete order = []

  abbrev pub small_entry : Order → List ℕ
  small_entry order =
      encode_to p cs db_options (header_of order.type order (hash_function order.key))
      ++ (order.key ++ chunk_of order.type order)

  unfoldable pub small_entries : List Order → List ℕ
  small_entries [] = []
  small_entries (order ∷ orders) = small_entry order ++ small_entries orders

  -- The pairs of the index: each entry starts where the one before it ends.
  unfoldable pub placed : ℕ → ℕ → List Order → Index
  placed fileid offset [] = []
  placed fileid offset (order ∷ orders) =
      (hash_function order.key, location fileid offset)
      ∷ placed fileid (offset + length (small_entry order)) orders

  dispatch_small :
      (type : OrderType) (order : Order) (hashed_key : ℕ) (m : Manager)
      → is_self_contained order ≡ true
      → dispatch p cs db_options filetype_default uninitialised stack epoch_now type order
          hashed_key m
        ≡ append_to_buffer p cs db_options filetype_default uninitialised stack epoch_now
            (header_of type order hashed_key)
            order.key
            (chunk_of type order)
            hashed_key
            m
  unfolding write_small write_delete
  dispatch_small OrderType.put order hashed_key m h = rw h refl
  dispatch_small OrderType.delete order hashed_key m h = refl

  -- The state in which the order is copied, and the one behind the copy.
  abbrev ready : Order → Manager → Manager
  ready order m =
      remember_sync p cs db_options filetype_default uninitialised stack epoch_now order
        (record m { buffer_has_items = true })

  abbrev copied : Order → Manager → Manager
  copied order m =
      appended p cs db_options filetype_default uninitialised stack epoch_now
        (header_of order.type order (hash_function order.key)) order.key (chunk_of order.type order)
        (hash_function order.key) (ready order m)

  abbrev pub small_written : Order → Manager → Manager
  small_written order m =
      forget_key p cs db_options filetype_default hash_function uninitialised stack epoch_now order
        (copied order m)

  module _ (order : Order) (m : Manager) (small : IsSmall order) (has_file : m.has_file ≡ true)
      (block : m.offset_end ≤ db_options.storage_hstable_size)
      (fits : m.offset_end + length (small_entry order) ≤ length m.buffer_raw) where
    prepared :
        prepare p cs db_options filetype_default hash_function uninitialised stack epoch_now m
        ≡ some m
    unfolding prepare
    prepared = rw (le→ltb db_options.storage_hstable_size m.offset_end block) (rw has_file refl)

    written :
        write_order p cs db_options filetype_default hash_function uninitialised stack epoch_now
          order
          (hash_function order.key)
          m
        ≡ some (location m.fileid m.offset_end, copied order m)
    unfolding write_order
    written =
        third_branch _ _ _ _ _ (never_large order small.not_large)
          (never_later order (first_part order small.self_contained))
        ∙ unfold write_first_part_or_small_order in
          dispatch_small order.type order (hash_function order.key) (ready order m)
            small.self_contained
          ∙ append_to_buffer-appended p cs db_options filetype_default uninitialised stack epoch_now
              (header_of order.type order (hash_function order.key)) order.key
              (chunk_of order.type order) (hash_function order.key) (ready order m) fits

    write_one-small :
        (index : Index)
        → 0 < m.fileid
        → m.fileid < 2 ^ 32
        → write_one p cs db_options filetype_default hash_function uninitialised stack epoch_now
            order m index
          ≡ some (
            small_written order m,
            index ++ ((hash_function order.key, location m.fileid m.offset_end) ∷ []),
          )
    unfolding write_one post_process
    write_one-small index pos low = rw prepared (
        rw written
          (rw small.self_contained (rw (location_ne_zero m.fileid m.offset_end pos low) refl)))

  module _ (order : Order) (m : Manager)
      (fits : m.offset_end + length (small_entry order) ≤ length m.buffer_raw) where
    small_written-Buffered : Buffered m (small_entry order) (small_written order m)
    small_written-Buffered =
        let b =
          appended-Buffered p cs db_options filetype_default uninitialised stack epoch_now
            (header_of order.type order (hash_function order.key)) order.key
            (chunk_of order.type order) (hash_function order.key) (ready order m) fits in
        record {
          fileid = refl;
          has_file = refl;
          fd_position = refl;
          offset_start = refl;
          offset_end = b.offset_end;
          files = refl;
          buffer_size = b.buffer_size;
          buffer_bytes = b.buffer_bytes;
        }

  -- The state behind the loop.
  unfoldable pub loop_state : List Order → Manager → Manager
  loop_state [] m = m
  loop_state (order ∷ orders) m = loop_state orders (small_written order m)

  pub loop_state-has_items :
      (orders : List Order) (m : Manager)
      → m.buffer_has_items ≡ true
      → (loop_state orders m).buffer_has_items ≡ true
  unfolding loop_state
  loop_state-has_items [] m h = h
  loop_state-has_items (order ∷ orders) m h =
      loop_state-has_items orders (small_written order m) refl

  pub loop-Buffered :
      (orders : List Order) (m : Manager)
      → m.offset_end + length (small_entries orders) ≤ length m.buffer_raw
      → Buffered m (small_entries orders) (loop_state orders m)
  unfolding loop_state small_entries
  loop-Buffered [] m fits = record {
    fileid = refl;
    has_file = refl;
    fd_position = refl;
    offset_start = refl;
    offset_end = omega arith;
    files = refl;
    buffer_size = refl;
    buffer_bytes = sym (append-nil (take m.offset_end m.buffer_raw));
  }
  loop-Buffered (order ∷ orders) m fits =
      let long = length-append (small_entry order) (small_entries orders) in
      let first = small_written-Buffered order m (omega (arith, long)) in
      Buffered-append (small_entry order) (small_entries orders) m (small_written order m) _ first (
        loop-Buffered orders (small_written order m)
          (omega (arith, long, first.offset_end, first.buffer_size)))

  pub write_loop-small :
      (orders : List Order) (m : Manager) (index : Index)
      → All IsSmall orders
      → m.has_file ≡ true
      → 0 < m.fileid
      → m.fileid < 2 ^ 32
      → m.offset_end + length (small_entries orders) ≤ db_options.storage_hstable_size
      → db_options.storage_hstable_size ≤ length m.buffer_raw
      → write_loop p cs db_options filetype_default hash_function uninitialised stack epoch_now
          orders m index
        ≡ some (loop_state orders m, index ++ placed m.fileid m.offset_end orders)
  unfolding write_loop loop_state small_entries placed
  write_loop-small [] m index small has_file pos low block room =
      ap (λ i. some (m, i)) (sym (append-nil index))
  write_loop-small (order ∷ orders) m index small has_file pos low block room =
      let long = length-append (small_entry order) (small_entries orders) in
      let first = small_written-Buffered order m (omega (arith, long)) in
      let here : ℕ × ℕ = (hash_function order.key, location m.fileid m.offset_end) in
      ap
        (λ r. r >>= λ r.
          write_loop p cs db_options filetype_default hash_function uninitialised stack epoch_now
            orders r.0 r.1)
        (write_one-small order m small.0 has_file (omega (arith, long)) (omega (arith, long)) index
          pos low)
      ∙ write_loop-small orders (small_written order m) (index ++ (here ∷ [])) small.1 has_file pos
          low (omega (arith, long, first.offset_end)) (omega (arith, first.buffer_size))
      ∙ ap
          (λ o. some (
            loop_state orders (small_written order m),
            (index ++ (here ∷ [])) ++ placed m.fileid o orders,
          ))
          first.offset_end
      ∙ ap (λ i. some (loop_state orders (small_written order m), i))
          (append_assoc index (here ∷ []) _)
