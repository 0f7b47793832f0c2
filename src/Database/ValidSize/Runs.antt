-- ===== src/Database/ValidSize/Runs.antt =====
-- PutPartValidSize on concrete values, and the theorems at concrete inputs.
use kingdb.Prelude.{
  ℕ, ◌+◌, ◌≡◌, refl, arith, true, false, Option, some, none, List, [], ◌∷◌, length, if◌then◌else◌,
  take, ◌==◌,
}
use kingdb.Reader.{done}
use kingdb.Coding.{encode_fixed32}
use kingdb.Samples.{x86}
use kingdb.Status.{Status, status_ok}
use kingdb.Options.{DatabaseOptions, CompressionType, default_options}
use kingdb.ByteArray.{ByteArray, new_byte_array}
use kingdb.Format.Entry.{calculate_padding_size}
use kingdb.Order.{is_last_part}
use kingdb.HsTable.Recovery.Rewrite.{zeros}
use kingdb.Compressor.{Lz4, compress, frame_of, adjust_compressed_size, reset_thread_local_storage}
use kingdb.Database.{put_part, put_parts, chunk_at}
use kingdb.Database.ValidSize.{
  Writing, Submission, put_part_valid_size, place_part, compress_part, finish_part, compressed_size,
  has_no_room,
}
use kingdb.Database.ValidSize.Room.{position, headroom, space, at_part, Accepts, Fits, first-Fits}
use kingdb.Database.ValidSize.Accepted.{put_part_valid_size-Accepts}
use kingdb.Database.ValidSize.LastPart.{order_of, recognised, put_part_valid_size-is_last_part}
use kingdb.Database.ValidSize.Value.{submit, Submits, Compresses, put_part-Submits}

-- A block of one byte for every chunk.
abbrev one_byte : Lz4
one_byte = record {
  bound = λ n. n + 16;
  compress = λ chunk n. some (length chunk ∷ []);
  decompress = λ packed n. none;
}

one_byte-Compresses : (max : ℕ) → Compresses one_byte max
one_byte-Compresses max = λ chunk nonempty small. (length chunk ∷ [], refl)

abbrev first_byte : ℕ → List ℕ → ℕ
first_byte crc [] = crc
first_byte crc (b ∷ bs) = b

abbrev compressing : DatabaseOptions
compressing = record default_options {
  storage_maximum_part_size = 30;
  compression = CompressionType.lz4_compression;
}

-- What another value has left behind.
abbrev used : Writing
used = record {
  ts_compression_enabled = 0;
  ts_offset = 77;
  compressor = record { ts_compress = 4; ts_uncompress = 5; crc32 = 6 };
  crc32 = 9;
}

abbrev forty_bytes : ByteArray
forty_bytes = new_byte_array (zeros 40)

used-Fits : Fits 40 0 (at_part true used)
used-Fits = first-Fits 40 used (omega arith)

put_part-Submits_example :
    (r : Status × (Writing × List Submission)) × ((put_part compressing
          (submit x86 one_byte first_byte compressing status_ok (7 ∷ []))
          false
          forty_bytes
          0
          40
          (used, [])
        ≡ some r)
      × Submits 40 40 (at_part true used) [] r)
unfolding zeros
put_part-Submits_example =
    put_part-Submits x86 one_byte first_byte compressing status_ok (7 ∷ []) 40 refl
      (one_byte-Compresses 30) refl (omega arith) forty_bytes 0 used [] refl refl (omega arith)
      (omega arith) (omega arith) (omega arith) used-Fits

put_part_valid_size-Accepts_example : Accepts 40 30 (at_part true used) (
    put_part_valid_size x86 one_byte first_byte compressing false status_ok
      (7 ∷ [])
      (zeros 30)
      0
      40
      used)
unfolding zeros
put_part_valid_size-Accepts_example =
    put_part_valid_size-Accepts x86 one_byte first_byte compressing (zeros 30) (30 ∷ []) 0 40 used
      refl refl (omega arith) (omega arith) (omega arith) status_ok (7 ∷ []) refl used-Fits

-- The offset and the size of what is submitted, and the compressed size that goes with it.
abbrev spans : List Submission → List (ℕ × ℕ × ℕ)
spans [] = []
spans (s ∷ ss) = (s.offset_chunk, length s.chunk, s.size_value_compressed) ∷ spans ss

abbrev spans_of : Option (Status × (Writing × List Submission)) → List (ℕ × ℕ × ℕ)
spans_of none = []
spans_of (some (status, (w, ss))) = spans ss

-- Both parts are compressed.
two_frames :
    spans_of (
      put_part compressing
        (submit x86 one_byte first_byte compressing status_ok (7 ∷ []))
        false
        forty_bytes
        0
        40
        (used, []))
    ≡ (0, 9, 0) ∷ (9, 9, 18) ∷ []
unfolding zeros put_part put_parts chunk_at submit put_part_valid_size place_part compress_part
    finish_part compressed_size has_no_room compress frame_of adjust_compressed_size
    reset_thread_local_storage encode_fixed32 calculate_padding_size
two_frames = refl

-- Chunks of ten bytes do not get smaller.
abbrev clumsy : Lz4
clumsy = record {
  bound = λ n. n + 16;
  compress = λ chunk n. some (if length chunk == 10 then chunk else take 12 chunk);
  decompress = λ packed n. none;
}

abbrev twenty : DatabaseOptions
twenty = record compressing { storage_maximum_part_size = 20 }

abbrev thirty_bytes : ByteArray
thirty_bytes = new_byte_array (zeros 30)

-- The last part is stored as it is: it ends at 38, and the compressed size that is submitted is 30.
disabled_frame :
    spans_of (
      put_part twenty
        (submit x86 clumsy first_byte twenty status_ok (7 ∷ []))
        false
        thirty_bytes
        0
        30
        (used, []))
    ≡ (0, 20, 0) ∷ (20, 18, 30) ∷ []
unfolding zeros put_part put_parts chunk_at submit put_part_valid_size place_part compress_part
    finish_part compressed_size has_no_room compress frame_of adjust_compressed_size
    reset_thread_local_storage encode_fixed32 calculate_padding_size
disabled_frame = refl

-- The state of the thread behind the first part.
abbrev behind_first : Writing
behind_first = record {
  ts_compression_enabled = 1;
  ts_offset = 0;
  compressor = record { ts_compress = 20; ts_uncompress = 0; crc32 = 6 };
  crc32 = 0;
}

behind_first-Fits : Fits 30 20 (at_part false behind_first)
unfolding position headroom space calculate_padding_size at_part
behind_first-Fits = (omega arith, omega arith)

put_part_valid_size-is_last_part_example :
    let (r, after) =
      put_part_valid_size x86 clumsy first_byte twenty false status_ok
        (7 ∷ [])
        (zeros 10)
        20
        30
        behind_first in
    (s : Submission) × ((r ≡ done s)
      × (is_last_part (order_of 0 (record { sync = false }) (7 ∷ []) false s)
          ≡ recognised (20 == 0) behind_first after))
unfolding zeros
put_part_valid_size-is_last_part_example =
    put_part_valid_size-is_last_part x86 clumsy first_byte twenty (zeros 10) (zeros 10) 20 30
      behind_first refl refl (omega arith) (omega arith) (omega arith) status_ok 0
      (record { sync = false }) (7 ∷ []) false refl refl behind_first-Fits
