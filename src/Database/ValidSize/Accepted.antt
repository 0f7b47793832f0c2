-- ===== src/Database/ValidSize/Accepted.antt =====
-- PutPartValidSize: a part is placed within the space of its value, on every branch.
use kingdb.Prelude.{
  ℕ, ◌+◌, ◌-◌, ◌%◌, ◌^◌, ◌<◌, ◌≤◌, ◌≡◌, refl, ap, arith, Bool, true, false, List, length, ltb, ◌==◌,
  if◌then◌else◌, Bool-cases, inl, inr, some,
}
use native.Mathlib.Nat.{mod-eq_of_lt}
use kingdb.Coding.{Platform}
use kingdb.Status.{Status, is_ok}
use kingdb.Options.{DatabaseOptions, CompressionType}
use kingdb.Reader.{Read, done}
use kingdb.Format.Entry.{calculate_padding_size}
use kingdb.ResourceManager.{sub64}
use kingdb.HsTable.Recovery.Rewrite.{zeros}
use kingdb.Compressor.{Lz4, ThreadState, compress, frame_of, adjust_compressed_size}
use kingdb.Compressor.Frames.{length-bytes_of}
use kingdb.Database.ValidSize.{
  Writing, Submission, Placed, compresses, start_part, reset_compressor, has_no_room, disable,
  compress_part, place_part, finish_part, put_part_valid_size, compressed_size, stream_part,
}
use kingdb.Database.ValidSize.Room.{
  position, headroom, space, Fits, Accepts, at_part, not_ltb, not_above, room_left,
}

module _ (p : Platform) (lz4 : Lz4) (extend : ℕ → List ℕ → ℕ) (db_options : DatabaseOptions)
    (chunk packed : List ℕ) (offset_chunk size_value : ℕ) (w : Writing)
    (lz4_compression : db_options.compression ≡ CompressionType.lz4_compression)
    (compressed : lz4.compress chunk (lz4.bound (length chunk) % 2 ^ 32) ≡ some packed)
    (nonempty : 0 < length chunk) (within : length chunk + offset_chunk ≤ size_value)
    (size_small : size_value < 2 ^ 62) where
  -- What is placed follows what was placed before, and leaves room for the rest.
  pub record IsPlaced (before : Writing) (q : Placed) : Type 0 where
    pub starts : q.offset ≡ position before
    pub ends : position q.state ≡ q.offset + length q.chunk
    pub room : Fits size_value (length chunk + offset_chunk) q.state
    pub some_bytes : 0 < length q.chunk
    pub raw_size :
        q.state.ts_compression_enabled ≡ 0 → length q.chunk ≡ length chunk + headroom before

  abbrev frame : List ℕ
  frame = frame_of p lz4 extend chunk packed

  frame_small : length frame ≤ length chunk + 8
  frame_small =
      elim (Bool-cases (ltb (length chunk) (length packed)))
        as (λ _. length frame ≤ length chunk + 8) [
          | inl t ↦ omega (
            arith,
            length-bytes_of p lz4 extend (record { source = chunk; packed = packed }),
            ap (λ b. if b then length chunk else length packed) t,
          )
          | inr t ↦
              ground
                (arith, length-bytes_of p lz4 extend (record { source = chunk; packed = packed }))
        ]

  frame_some : 0 < length frame
  frame_some =
      omega (arith, length-bytes_of p lz4 extend (record { source = chunk; packed = packed }))

  pub padding_small : calculate_padding_size size_value ≤ 2 ^ 62
  unfolding calculate_padding_size
  padding_small = omega arith

  abbrev compressed_state : ThreadState → ThreadState
  compressed_state c = record c { ts_compress = (c.ts_compress + length frame) % 2 ^ 64 }

  abbrev kept : ThreadState → Writing → Placed
  kept c v = record {
    chunk = frame;
    offset = c.ts_compress;
    state = record v { compressor = compressed_state c };
  }

  abbrev disabled : ThreadState → Writing → Placed
  disabled c v =
      disable p lz4 extend db_options chunk frame c.ts_compress
        (record v { compressor = compressed_state c })

  abbrev HasRoom : ThreadState → Type 0
  HasRoom c = c.ts_compress + (size_value - offset_chunk) + 8 ≤ space size_value

  no_wrap :
      (c : ThreadState)
      → HasRoom c
      → (c.ts_compress + length frame) % 2 ^ 64 ≡ c.ts_compress + length frame
  unfolding space
  no_wrap c h = mod-eq_of_lt (omega (arith, h, frame_small, padding_small))

  back :
      (c : ThreadState)
      → HasRoom c
      → ((c.ts_compress + length frame) % 2 ^ 64 + sub64 0 (length frame)) % 2 ^ 64 ≡ c.ts_compress
  unfolding space
  back c h = omega (arith, h, frame_small, padding_small)

  kept-IsPlaced :
      (c : ThreadState) (v : Writing)
      → v.ts_compression_enabled ≡ 1
      → HasRoom c
      → has_no_room p lz4 extend db_options chunk frame c.ts_compress offset_chunk size_value
        ≡ false
      → IsPlaced (record v { compressor = c }) (kept c v)
  unfolding has_no_room position headroom space
  kept-IsPlaced c v enabled h t = record {
    starts = rw enabled refl;
    ends = rw enabled (no_wrap c h);
    room =
        rw (enabled, no_wrap c h)
          (
            omega arith,
            room_left c.ts_compress (length chunk) (length frame)
                (calculate_padding_size size_value) size_value offset_chunk within size_small
                padding_small frame_small h (not_ltb _ _ t),
          );
    some_bytes = frame_some;
    raw_size = λ z. absurd (omega (arith, enabled, z));
  }

  disabled-IsPlaced :
      (c : ThreadState) (v : Writing)
      → v.ts_compression_enabled ≡ 1
      → HasRoom c
      → IsPlaced (record v { compressor = c }) (disabled c v)
  unfolding position headroom space adjust_compressed_size zeros
  disabled-IsPlaced c v enabled h = record {
    starts = rw enabled refl;
    ends = rw (back c h) (omega (arith, h, padding_small));
    room = (omega arith, rw (back c h) (omega (arith, h, padding_small, nonempty)));
    some_bytes = omega arith;
    raw_size = λ z. rw enabled (omega arith);
  }

  abbrev pub Places : Read Placed → Writing → Type 0
  Places r before = (q : Placed) × ((r ≡ done q) × IsPlaced before q)

  compress_part-Places :
      (is_first_part : Bool) (v : Writing)
      → v.ts_compression_enabled ≡ 1
      → HasRoom (reset_compressor is_first_part v).compressor
      → Places
          (compress_part p lz4 extend db_options is_first_part chunk offset_chunk size_value v)
          (reset_compressor is_first_part v)
  unfolding compress_part compress has_no_room
  compress_part-Places is_first_part v enabled h =
      let c = (reset_compressor is_first_part v).compressor in
      elim (Bool-cases
        (has_no_room p lz4 extend db_options chunk frame c.ts_compress offset_chunk size_value)) [
          | inl t ↦ (
            disabled c v,
            (rw (compress_part, compressed, t) refl, disabled-IsPlaced c v enabled h),
          )
          | inr t ↦
              (kept c v, (rw (compress_part, compressed, t) refl, kept-IsPlaced c v enabled h t))
        ]

  nonzero : (length chunk == 0) ≡ false
  nonzero = ground (arith, nonempty)

  pub does_compress : compresses db_options chunk ≡ true
  does_compress = rw (lz4_compression, nonzero) refl

  -- Where compression is disabled, the part is placed as it is.
  abbrev raw : Placed
  raw = record {
    chunk = chunk;
    offset = w.ts_offset;
    state = record w { ts_offset = (w.ts_offset + length chunk) % 2 ^ 64 };
  }

  raw-IsPlaced :
      (w.ts_compression_enabled == 0) ≡ true
      → w.ts_compression_enabled ≤ 1
      → w.ts_offset + (size_value - offset_chunk) ≤ space size_value
      → IsPlaced w raw
  unfolding position headroom space
  raw-IsPlaced e b h = record {
    starts = rw e refl;
    ends = rw e (omega (arith, h, padding_small));
    room = (b, rw e (omega (arith, h, padding_small)));
    some_bytes = nonempty;
    raw_size = λ z. rw e (omega arith);
  }

  pub place_part-Places :
      (is_first_part : Bool)
      → Fits size_value offset_chunk (at_part is_first_part w)
      → Places
          (place_part p lz4 extend db_options is_first_part chunk offset_chunk size_value w)
          (at_part is_first_part w)
  unfolding place_part at_part position headroom space
  place_part-Places true (b, fits) =
      rw does_compress (compress_part-Places true (start_part true w) refl (omega (arith, fits)))
  place_part-Places false (b, fits) = elim (Bool-cases (w.ts_compression_enabled == 0)) [
    | inl e ↦ (raw, (rw (does_compress, e, e) refl, raw-IsPlaced e b (ground (arith, fits, e))))
    | inr e ↦
        rw (does_compress, e, e)
          (compress_part-Places false w (ground (arith, e, b)) (ground (arith, fits, e)))
  ]

  abbrev is_first : Bool
  is_first = offset_chunk == 0

  abbrev pub submission : Bool → Bool → List ℕ → Placed → Submission
  submission is_first_part is_last_part key q = record {
    chunk = q.chunk;
    offset_chunk = q.offset;
    size_value = size_value;
    size_value_compressed =
        compressed_size p lz4 extend db_options is_first_part is_last_part chunk q;
    crc32 = if is_last_part then stream_part p lz4 extend db_options is_first_part key q else 0;
  }

  pub inside :
      (before : Writing) (q : Placed)
      → IsPlaced before q
      → q.offset + length q.chunk ≤ space size_value
  unfolding position headroom space
  inside before q k = omega (arith, k.ends, k.room.1)

  pub finish_part-submission :
      (is_first_part is_last_part : Bool) (key : List ℕ) (before : Writing) (q : Placed)
      → IsPlaced before q
      → (finish_part p lz4 extend db_options is_first_part is_last_part key chunk size_value q).0
        ≡ done (submission is_first_part is_last_part key q)
  unfolding finish_part space
  finish_part-submission is_first_part is_last_part key before q k =
      rw
        (
          does_compress,
          not_above (size_value + calculate_padding_size size_value) (q.offset + length q.chunk)
              (inside before q k) (omega (arith, padding_small)),
        )
        refl

  pub finish_part-Accepts :
      (is_first_part is_last_part : Bool) (key : List ℕ) (before : Writing) (q : Placed)
      → IsPlaced before q
      → Accepts size_value
          (length chunk + offset_chunk)
          before
          (finish_part p lz4 extend db_options is_first_part is_last_part key chunk size_value q)
  unfolding finish_part position headroom
  finish_part-Accepts is_first_part is_last_part key before q k = (
    submission is_first_part is_last_part key q,
    (
      finish_part-submission is_first_part is_last_part key before q k,
      (k.starts, (k.ends, (inside before q k, k.room))),
    ),
  )

  -- PutPartValidSize accepts a part where what was left of the value fitted in the space of its raw
  -- size and the padding: the test that prevents a write outside of the allocated memory does not
  -- fail. What is submitted starts where the part before it ended, the next part starts where it ends,
  -- it lies within the space of the value, and what is then left of the value fits again, as raw data
  -- and with the null header where that may still be needed. Compression is on, LZ4 compresses the
  -- chunk, to whatever size, the chunk is not empty and lies within the value, and the database and
  -- the file system are in order, and the value has less than 2 ^ 62 bytes.
  pub put_part_valid_size-Accepts :
      (file_system_status : Status) (key : List ℕ)
      → is_ok file_system_status ≡ true
      → Fits size_value offset_chunk (at_part is_first w)
      → Accepts size_value (length chunk + offset_chunk) (at_part is_first w) (
          put_part_valid_size p lz4 extend db_options false file_system_status key chunk
            offset_chunk size_value w)
  unfolding put_part_valid_size
  put_part_valid_size-Accepts status key ok fits =
      let (q, (e, k)) = place_part-Places is_first fits in
      rw (ok, e) (finish_part-Accepts is_first _ key _ q k)
