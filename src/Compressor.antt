-- ===== src/Compressor.antt =====
-- algorithm/compressor.cc and algorithm/compressor.h: the frames around the blocks of LZ4. The library
-- and the CRC are arguments, and what the class keeps for each thread is the state of one thread.
pub mod Frames
pub mod RoundTrip
pub mod Verification
mod Runs
use kingdb.Prelude.{
  ℕ, zero, suc, ◌+◌, ◌-◌, ◌*◌, ◌%◌, ◌^◌, Bool, true, false, not, ◌&&◌, ◌||◌, Option, none, some,
  List, [], ◌∷◌, ◌++◌, length, take, drop, ltb, ◌==◌, if◌then◌else◌,
}
use kingdb.Coding.{Platform, encode_fixed32, get_fixed32}
use kingdb.Status.{Status, status_io_error}
use kingdb.Reader.{Read, done, failed, out_of_bounds}
use kingdb.ByteArray.{ByteArray}
use kingdb.ResourceManager.{sub64}

-- LZ4_compressBound, LZ4_compress_limitedOutput and LZ4_decompress_safe_partial: `none` where the
-- result is not positive, and otherwise as many bytes as it says.
pub record Lz4 : Type 0 where
  pub bound : ℕ → ℕ
  pub compress : List ℕ → ℕ → Option (List ℕ)
  pub decompress : List ℕ → ℕ → Option (List ℕ)

pub record ThreadState : Type 0 where
  pub ts_compress : ℕ
  pub ts_uncompress : ℕ
  pub crc32 : ℕ

unfoldable pub reset_thread_local_storage : ThreadState → ThreadState
reset_thread_local_storage st = record st { ts_compress = 0; ts_uncompress = 0 }

abbrev pub size_frame_header : ℕ
size_frame_header = 8

-- `size` is an `int64_t`.
unfoldable pub adjust_compressed_size : ℕ → ThreadState → ThreadState
adjust_compressed_size inc st = record st { ts_compress = (st.ts_compress + inc) % 2 ^ 64 }

unfoldable pub size_uncompressed_frame : ℕ → ℕ
size_uncompressed_frame size_data = (size_data + 8) % 2 ^ 64

-- HasFrameHeaderDisabledCompression: the loop stops at the first byte that is not null.
unfoldable pub has_null_bytes : ℕ → List ℕ → Read Bool
has_null_bytes zero frame = done true
has_null_bytes (suc n) [] = out_of_bounds
has_null_bytes (suc n) (b ∷ frame) =
    let rest = has_null_bytes n frame in if b == 0 then rest else done false

unfoldable pub has_frame_header_disabled_compression : List ℕ → Read Bool
unfolding has_null_bytes
has_frame_header_disabled_compression frame = has_null_bytes size_frame_header frame

-- What Uncompress gives out: the data of a frame, and the frame.
pub record Frame : Type 0 where
  pub content : List ℕ
  pub frame : List ℕ
  pub state : ThreadState

unfoldable pub is_uncompression_done : ℕ → ThreadState → Bool
is_uncompression_done size_source st = st.ts_uncompress == size_source

-- The local variables of UncompressByteArray; `out` is what was written of the output.
pub record Progress : Type 0 where
  pub offset_in : ℕ
  pub out : List ℕ
  pub state : ThreadState

abbrev pub source_of : ByteArray → List ℕ
source_of value = drop value.offset value.resource

abbrev pub invalid_checksum : Status
invalid_checksum = status_io_error "Invalid checksum."

-- A write into the output, of the size of the value.
abbrev pub write_out : ByteArray → List ℕ → List ℕ → Read (List ℕ)
write_out value out content =
    if ltb value.size (length out + length content) then out_of_bounds else done (out ++ content)

module _ (p : Platform) (lz4 : Lz4) (extend : ℕ → List ℕ → ℕ) where
  -- A frame: its size, 0 where the data is stored as it is, and that of the data.
  unfoldable pub frame_of : List ℕ → List ℕ → List ℕ
  frame_of source packed =
      if ltb (length source) (length packed)
      then encode_fixed32 p 0 ++ (encode_fixed32 p (length source % 2 ^ 32) ++ source)
      else encode_fixed32 p ((length packed + 8) % 2 ^ 32)
        ++ (encode_fixed32 p (length source % 2 ^ 32) ++ packed)

  unfoldable pub compress : List ℕ → ThreadState → Read (List ℕ × ThreadState)
  unfolding frame_of
  compress source st = elim (lz4.compress source (lz4.bound (length source) % 2 ^ 32)) [
    | none ↦ failed (status_io_error "LZ4_compress_limitedOutput() failed")
    | some packed ↦ done (
      frame_of source packed,
      record st { ts_compress = (st.ts_compress + length (frame_of source packed)) % 2 ^ 64 },
    )
  ]

  -- The end of Uncompress, for a frame with `size` bytes behind its header.
  abbrev pub leave_frame : List ℕ → ℕ → List ℕ → ThreadState → Read (Option Frame)
  leave_frame source size content st =
      let frame = take ((size + 8) % 2 ^ 32) (drop st.ts_uncompress source) in
      done (
        some (record {
          content = content;
          frame = frame;
          state = record st {
            crc32 = extend st.crc32 frame;
            ts_uncompress = (st.ts_uncompress + (size + 8) % 2 ^ 32) % 2 ^ 64;
          };
        }))

  unfoldable pub read_frame : List ℕ → ℕ → ℕ → ThreadState → Read (Option Frame)
  read_frame source size_compressed size_source st =
      let behind = drop (st.ts_uncompress + 8) source in
      let size = (size_compressed + 2 ^ 32 - 8) % 2 ^ 32 in
      if size_compressed == 0
      then if ltb (length behind) size_source
        then out_of_bounds
        else leave_frame source size_source (take size_source behind) st
      else if ltb (length behind) size
      then out_of_bounds
      else elim (lz4.decompress (take size behind) size_source) [
        | none ↦ failed (status_io_error "LZ4_decompress_safe_partial() failed")
        | some content ↦ leave_frame source size content st
      ]

  -- Uncompress: `none` is the status Done.
  unfoldable pub uncompress : List ℕ → ℕ → ThreadState → Read (Option Frame)
  unfolding read_frame
  uncompress source size_source_total st =
      if st.ts_uncompress == size_source_total
      then done none
      else elim (get_fixed32 p (drop st.ts_uncompress source)) [
        | none ↦ out_of_bounds
        | some size_compressed ↦ elim (get_fixed32 p (drop (st.ts_uncompress + 4) source)) [
          | none ↦ out_of_bounds
          | some size_source ↦ read_frame source size_compressed size_source st
        ]
      ]

  -- Raw data: one step of 1 MiB at most, and the end. The CRC is not compared.
  unfoldable pub copy_raw : ByteArray → ℕ → Progress → Read (List ℕ)
  copy_raw value size_left pr =
      let behind = drop pr.offset_in (source_of value) in
      let size_current =
        if ltb ((pr.offset_in + 1024 * 1024) % 2 ^ 64) size_left
        then 1024 * 1024
        else sub64 size_left pr.offset_in in
      if pr.offset_in == size_left
      then done pr.out
      else if ltb (length behind) size_current
      then out_of_bounds
      else write_out value pr.out (take size_current behind)

  abbrev pub check_end : ByteArray → Bool → Progress → Read (List ℕ)
  check_end value do_checksum_verification pr =
      if not do_checksum_verification || (pr.state.crc32 == value.checksum)
      then done pr.out
      else failed invalid_checksum

  -- A frame that was uncompressed: Uncompress has streamed it, and so does the caller.
  abbrev pub next_progress : Bool → Frame → List ℕ → Progress → Progress
  next_progress do_checksum_verification f out pr = record {
    offset_in = pr.offset_in + length f.frame;
    out = out;
    state =
        if do_checksum_verification
        then record f.state { crc32 = extend f.state.crc32 f.frame }
        else f.state;
  }

  -- The frames of a compressed value, on fuel.
  unfoldable pub uncompress_frames : ℕ → ByteArray → Bool → Progress → Option (Read (List ℕ))
  unfolding uncompress copy_raw has_frame_header_disabled_compression is_uncompression_done
  uncompress_frames zero value do_checksum_verification pr = none
  uncompress_frames (suc fuel) value do_checksum_verification pr =
      if is_uncompression_done value.size_compressed pr.state
      then some (check_end value do_checksum_verification pr)
      else elim (has_frame_header_disabled_compression (drop pr.offset_in (source_of value))) [
        | out_of_bounds ↦ some out_of_bounds
        | failed s ↦ some (failed s)
        | done true ↦ some (
            copy_raw value value.size_compressed
              (record pr { offset_in = pr.offset_in + size_frame_header }))
        | done false ↦ elim (uncompress (source_of value) value.size_compressed pr.state) [
          | out_of_bounds ↦ some out_of_bounds
          | failed s ↦ some (failed s)
          | done none ↦ some (done pr.out)
          | done (some f) ↦ elim (write_out value pr.out f.content) [
            | out_of_bounds ↦ some out_of_bounds
            | failed s ↦ some (failed s)
            | done out ↦
                uncompress_frames fuel value do_checksum_verification
                  (next_progress do_checksum_verification f out pr)
          ]
        ]
      ]

  abbrev pub start : ByteArray → Bool → ThreadState → Progress
  start value do_checksum_verification st = record {
    offset_in = 0;
    out = [];
    state =
        reset_thread_local_storage
          (if do_checksum_verification then record st { crc32 = value.checksum_initial } else st);
  }

  unfoldable pub uncompress_byte_array : ℕ → ByteArray → Bool → ThreadState → Option (Read (List ℕ))
  unfolding uncompress_frames copy_raw reset_thread_local_storage
  uncompress_byte_array fuel value do_checksum_verification st =
      let pr = start value do_checksum_verification st in
      if value.size_compressed == 0
      then some (copy_raw value value.size pr)
      else uncompress_frames fuel value do_checksum_verification pr
