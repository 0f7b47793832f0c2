-- ===== src/Compressor/Runs.antt =====
-- Frames around the blocks of a simple compressor.
use kingdb.Prelude.{
  ℕ, suc, ◌+◌, ◌%◌, ◌≡◌, refl, arith, true, false, some, List, [], ◌∷◌, All, length, drop,
}
use kingdb.Samples.{x86, sum}
use kingdb.Coding.{encode_fixed32}
use kingdb.Reader.{done, failed}
use kingdb.ByteArray.{ByteArray, new_byte_array}
use kingdb.Compressor.{
  Lz4, ThreadState, frame_of, reset_thread_local_storage, uncompress_byte_array, invalid_checksum,
}
use kingdb.Compressor.Frames.{Part, IsPacked}
use kingdb.Compressor.RoundTrip.{frames, sources, compress_parts, Holds, uncompress-compress}
use kingdb.Compressor.Verification.{once, twice, verification_refuses}

-- Every block is its data, behind one byte.
abbrev marked : Lz4
marked = record {
  bound = λ n. n + 1;
  compress = λ source limit. some (0 ∷ source);
  decompress = λ packed size. some (drop 1 packed);
}

-- The sum of the bytes, in place of the CRC.
abbrev extend : ℕ → List ℕ → ℕ
extend crc bytes = (crc + sum bytes) % 256

abbrev a_part : Part
a_part = record { source = 5 ∷ 6 ∷ []; packed = 0 ∷ 5 ∷ 6 ∷ [] }

abbrev another_part : Part
another_part = record { source = 7 ∷ []; packed = 0 ∷ 7 ∷ [] }

abbrev two_parts : List Part
two_parts = a_part ∷ another_part ∷ []

two_parts-IsPacked : All (IsPacked marked) two_parts
two_parts-IsPacked = (
  record {
    compressed = refl;
    decompressed = refl;
    nonempty = omega arith;
    source_small = omega arith;
    packed_small = omega arith;
  },
  (
    record {
      compressed = refl;
      decompressed = refl;
      nonempty = omega arith;
      source_small = omega arith;
      packed_small = omega arith;
    },
    tt,
  ),
)

abbrev stored : ByteArray
stored = record (new_byte_array (frames x86 marked extend two_parts)) {
  size = 3;
  size_compressed = length (frames x86 marked extend two_parts);
  checksum = once x86 marked extend 9 two_parts;
  checksum_initial = 9;
}

stored-Holds : Holds x86 marked extend stored two_parts
unfolding frames sources frame_of encode_fixed32
stored-Holds = ([], refl, refl, refl)

abbrev used_state : ThreadState
used_state = record { ts_compress = 4; ts_uncompress = 5; crc32 = 6 }

uncompress-compress_example :
    (compress_parts x86 marked extend two_parts (reset_thread_local_storage used_state)
      ≡ done (
        frames x86 marked extend two_parts,
        record used_state { ts_compress = stored.size_compressed; ts_uncompress = 0 },
      ))
    × (uncompress_byte_array x86 marked extend (2 + suc 0) stored false used_state
        ≡ some (done (sources x86 marked extend two_parts)))
unfolding frames frame_of encode_fixed32
uncompress-compress_example =
    uncompress-compress x86 marked extend a_part (another_part ∷ []) 0 stored used_state used_state
      two_parts-IsPacked stored-Holds (omega arith)

verification_refuses_example :
    uncompress_byte_array x86 marked extend (2 + suc 0) stored true used_state
    ≡ some (failed invalid_checksum)
unfolding frames frame_of encode_fixed32 once twice sum
verification_refuses_example =
    verification_refuses x86 marked extend a_part (another_part ∷ []) 0 stored used_state
      two_parts-IsPacked stored-Holds (omega arith) refl (omega arith)
