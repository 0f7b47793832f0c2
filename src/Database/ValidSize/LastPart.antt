-- ===== src/Database/ValidSize/LastPart.antt =====
-- PutPartValidSize: the last part of a value, and whether the write buffer takes it for one.
use kingdb.Prelude.{
  ℕ, ◌+◌, ◌%◌, ◌^◌, ◌<◌, ◌≤◌, ◌≡◌, refl, sym, ◌∙◌, arith, Bool, true, false, ◌||◌, ◌&&◌, not, List,
  length, ◌==◌, Bool-cases, inl, inr, some, ==_refl,
}
use native.Mathlib.Nat.{mod-eq_of_lt}
use kingdb.Coding.{Platform}
use kingdb.Status.{Status, is_ok}
use kingdb.Options.{DatabaseOptions, CompressionType, WriteOptions}
use kingdb.Reader.{done}
use kingdb.Order.{Order, put, is_last_part}
use kingdb.Compressor.{Lz4}
use kingdb.Database.ValidSize.{
  Writing, Submission, Placed, compresses, compressed_size, finish_part, put_part_valid_size,
}
use kingdb.Database.ValidSize.Room.{position, space, headroom, Fits, at_part}
use kingdb.Database.ValidSize.Accepted.{
  IsPlaced, place_part-Places, does_compress, padding_small, submission, inside,
  finish_part-submission,
}

-- The order that the write buffer makes of what is submitted.
abbrev pub order_of : ℕ → WriteOptions → List ℕ → Bool → Submission → Order
order_of tid write_options key is_large s = record {
  tid = tid;
  write_options = write_options;
  type = put;
  key = key;
  chunk = s.chunk;
  offset_chunk = s.offset_chunk;
  size_value = s.size_value;
  size_value_compressed = s.size_value_compressed;
  crc32 = s.crc32;
  is_large = is_large;
}

-- Whether an end is the end that the sizes of the last part say.
abbrev ends_at : ℕ → ℕ → ℕ → Bool
ends_at end size_value size_value_compressed =
    (size_value_compressed == 0 && end == size_value)
    || (not (size_value_compressed == 0) && end == size_value_compressed)

ends_where : (end size_value : ℕ) → 0 < end → ends_at end size_value end ≡ true
ends_where end size_value h = ground arith

ends_before :
    (end size_value given : ℕ) → 0 < given → given < end → ends_at end size_value given ≡ false
ends_before end size_value given h l = ground arith

recognises :
    (a b size_value given : ℕ)
    → 0 < b
    → a + b < 2 ^ 64
    → given ≡ a + b
    → ends_at ((b + a) % 2 ^ 64) size_value given ≡ true
recognises a b size_value given h small e =
    rw (e, same) (ends_where (a + b) size_value (omega (arith, h)))
  where
    same : (b + a) % 2 ^ 64 ≡ a + b
    same = omega (arith, small)

misses :
    (a b size_value given : ℕ)
    → 0 < given
    → a + b < 2 ^ 64
    → given < a + b
    → ends_at ((b + a) % 2 ^ 64) size_value given ≡ false
misses a b size_value given h small l = ends_before _ size_value given h (omega (arith, small, l))

or_true : (b : Bool) → b || true ≡ true
or_true true = refl
or_true false = refl

-- Whether the write buffer is to recognise the last part: it is the first part too, compression was
-- disabled before it, or it still is enabled behind it.
abbrev pub recognised : Bool → Writing → Writing → Bool
recognised is_first_part before after =
    is_first_part || (before.ts_compression_enabled == 0) || (after.ts_compression_enabled == 1)

module _ (p : Platform) (lz4 : Lz4) (extend : ℕ → List ℕ → ℕ) (db_options : DatabaseOptions)
    (chunk : List ℕ) (size_value : ℕ) (w : Writing) where
  compressed_size-ends :
      (is_first_part : Bool) (q : Placed)
      → compresses db_options chunk ≡ true
      → 0 < length chunk
      → 0 < length q.chunk
      → position q.state ≡ q.offset + length q.chunk
      → q.state.ts_compression_enabled ≤ 1
      → (q.state.ts_compression_enabled ≡ 0
          → length q.chunk ≡ length chunk + headroom (at_part is_first_part w))
      → q.offset + length q.chunk < 2 ^ 64
      → ends_at
          ((length q.chunk + q.offset) % 2 ^ 64)
          size_value
          (compressed_size p lz4 extend db_options is_first_part true chunk q)
        ≡ recognised is_first_part w q.state
  unfolding compressed_size at_part position headroom
  compressed_size-ends true q does nonempty some_bytes ends flag raw small =
      elim (Bool-cases (q.state.ts_compression_enabled == 1)) [
        | inl e ↦
            rw (does, e)
              (recognises q.offset (length q.chunk) size_value q.state.compressor.ts_compress
                some_bytes small (ground (arith, e, ends)))
        | inr e ↦
            rw (does, e)
              (recognises q.offset (length q.chunk) size_value q.state.ts_offset some_bytes small
                (ground (arith, e, ends, flag)))
      ]
  compressed_size-ends false q does nonempty some_bytes ends flag raw small =
      elim (Bool-cases (q.state.ts_compression_enabled == 1)) [
        | inl e ↦
            rw (does, e)
              (recognises q.offset (length q.chunk) size_value q.state.compressor.ts_compress
                  some_bytes small (ground (arith, e, ends))
                ∙ sym (or_true (w.ts_compression_enabled == 0)))
        | inr e ↦ elim (Bool-cases (w.ts_compression_enabled == 0)) [
          | inl z ↦
              rw (does, e, z)
                (recognises q.offset (length q.chunk) size_value
                  ((q.offset + length chunk) % 2 ^ 64) some_bytes small
                  (omega (arith, small, rw z at (raw (ground (arith, e, flag))))))
          | inr z ↦
              rw (does, e, z)
                (misses q.offset (length q.chunk) size_value ((q.offset + length chunk) % 2 ^ 64)
                  (omega (arith, nonempty, small, rw z at (raw (ground (arith, e, flag))))) small
                  (omega (arith, small, rw z at (raw (ground (arith, e, flag))))))
        ]
      ]

module _ (p : Platform) (lz4 : Lz4) (extend : ℕ → List ℕ → ℕ) (db_options : DatabaseOptions)
    (chunk packed : List ℕ) (offset_chunk size_value : ℕ) (w : Writing)
    (lz4_compression : db_options.compression ≡ CompressionType.lz4_compression)
    (compressed : lz4.compress chunk (lz4.bound (length chunk) % 2 ^ 32) ≡ some packed)
    (nonempty : 0 < length chunk) (within : length chunk + offset_chunk ≤ size_value)
    (size_small : size_value < 2 ^ 62) where
  last_part :
      (q : Placed)
      → IsPlaced p lz4 extend db_options chunk packed offset_chunk size_value w lz4_compression
          compressed nonempty within size_small
          (at_part (offset_chunk == 0) w)
          q
      → (tid : ℕ) (write_options : WriteOptions) (key : List ℕ) (is_large : Bool)
      → is_last_part (
          order_of tid write_options key is_large (
            submission p lz4 extend db_options chunk packed offset_chunk size_value w
              lz4_compression compressed nonempty within size_small
              (offset_chunk == 0)
              true
              key
              q))
        ≡ recognised (offset_chunk == 0) w q.state
  unfolding is_last_part space
  last_part q k tid write_options key is_large =
      compressed_size-ends p lz4 extend db_options chunk size_value w (offset_chunk == 0) q
        (does_compress p lz4 extend db_options chunk packed offset_chunk size_value w
          lz4_compression compressed nonempty within size_small)
        nonempty k.some_bytes k.ends k.room.0 k.raw_size
        (omega (
          arith,
          inside p lz4 extend db_options chunk packed offset_chunk size_value w lz4_compression
              compressed nonempty within size_small (at_part (offset_chunk == 0) w) q k,
          padding_small p lz4 extend db_options chunk packed offset_chunk size_value w
              lz4_compression compressed nonempty within size_small,
        ))

  whole :
      length chunk + offset_chunk ≡ size_value
      → ((length chunk + offset_chunk) % 2 ^ 64 == size_value) ≡ true
  whole e = rw (e, mod-eq_of_lt (below size_value size_small)) (==_refl size_value)
    where
      below : (n : ℕ) → n < 2 ^ 62 → n < 2 ^ 64
      below n h = omega arith

  -- The order that the write buffer makes of the last part of a compressed value is one that
  -- IsLastPart recognises if and only if it is the first part too, or compression was disabled
  -- before it, or compression is still enabled behind it: where compression is disabled by the last
  -- part itself and another came before, the compressed size leaves out the null header, and the part
  -- is not recognised. LZ4 compresses the chunk, to whatever size, the chunk is not empty, what was
  -- left of the value fitted in its space, the database and the file system are in order,
  -- and the value has less than 2 ^ 62 bytes.
  pub put_part_valid_size-is_last_part :
      (file_system_status : Status) (tid : ℕ) (write_options : WriteOptions) (key : List ℕ)
      (is_large : Bool)
      → is_ok file_system_status ≡ true
      → length chunk + offset_chunk ≡ size_value
      → Fits size_value offset_chunk (at_part (offset_chunk == 0) w)
      → let (r, after) =
          put_part_valid_size p lz4 extend db_options false file_system_status key chunk
            offset_chunk size_value w in
        (s : Submission) × ((r ≡ done s)
          × (is_last_part (order_of tid write_options key is_large s)
              ≡ recognised (offset_chunk == 0) w after))
  unfolding put_part_valid_size finish_part
  put_part_valid_size-is_last_part status tid write_options key is_large ok e fits =
      let (q, (placed, k)) =
        place_part-Places p lz4 extend db_options chunk packed offset_chunk size_value w
          lz4_compression compressed nonempty within size_small (offset_chunk == 0) fits in
      rw (ok, placed, whole e)
        (
          _,
          (
            finish_part-submission p lz4 extend db_options chunk packed offset_chunk size_value w
                lz4_compression compressed nonempty within size_small (offset_chunk == 0) true key _
                q k,
            last_part q k tid write_options key is_large,
          ),
        )
