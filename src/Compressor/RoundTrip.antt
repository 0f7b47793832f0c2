-- ===== src/Compressor/RoundTrip.antt =====
-- A value that was compressed part by part is uncompressed as a whole.
use kingdb.Prelude.{
  ℕ, suc, ◌+◌, ◌%◌, ◌^◌, ◌<◌, ◌≤◌, ◌≡◌, refl, sym, ap, ◌∙◌, arith, Bool, true, false, some, List,
  [], ◌∷◌, ◌++◌, All, length, drop, length-append, drop-append, drop-drop, append_assoc, append-nil,
  le→ltb, ◌==◌, if◌then◌else◌,
}
use native.Mathlib.Nat.{mod-eq_of_lt}
use kingdb.Coding.{Platform}
use kingdb.Reader.{Read, done, failed, out_of_bounds}
use kingdb.ByteArray.{ByteArray}
use kingdb.Compressor.{
  Lz4, ThreadState, Progress, compress, source_of, check_end, next_progress, is_uncompression_done,
  uncompress_frames, uncompress_byte_array, start, reset_thread_local_storage,
  has_frame_header_disabled_compression,
}
use kingdb.Compressor.Frames.{
  Part, IsPacked, bytes_of, behind_frame, uncompress-frame, frame-enabled, length-bytes_of,
}

module _ (p : Platform) (lz4 : Lz4) (extend : ℕ → List ℕ → ℕ) where
  abbrev frame : Part → List ℕ
  frame = bytes_of p lz4 extend

  unfoldable pub frames : List Part → List ℕ
  frames [] = []
  frames (part ∷ parts) = frame part ++ frames parts

  unfoldable pub sources : List Part → List ℕ
  sources [] = []
  sources (part ∷ parts) = part.source ++ sources parts

  -- Compress, called for each part in turn.
  unfoldable pub compress_parts : List Part → ThreadState → Read (List ℕ × ThreadState)
  compress_parts [] st = done ([], st)
  compress_parts (part ∷ parts) st = elim (compress p lz4 extend part.source st) [
    | failed s ↦ failed s
    | out_of_bounds ↦ out_of_bounds
    | done (f, st1) ↦ elim (compress_parts parts st1) [
      | failed s ↦ failed s
      | out_of_bounds ↦ out_of_bounds
      | done (fs, st2) ↦ done (f ++ fs, st2)
    ]
  ]

  abbrev pub counted : ℕ → ThreadState → ThreadState
  counted n st = record st { ts_compress = (st.ts_compress + n) % 2 ^ 64 }

  compress_parts-frames :
      (parts : List Part) (st : ThreadState)
      → All (IsPacked lz4) parts
      → st.ts_compress + length (frames parts) < 2 ^ 64
      → compress_parts parts st
        ≡ done (frames parts, record st { ts_compress = st.ts_compress + length (frames parts) })
  unfolding compress_parts frames compress
  compress_parts-frames [] st k small =
      ap (λ n. done ([], record st { ts_compress = n })) (omega arith)
  compress_parts-frames (part ∷ parts) st k small =
      let long = length-append (frame part) (frames parts) in
      let first : (st.ts_compress + length (frame part)) % 2 ^ 64
          ≡ st.ts_compress + length (frame part) =
        mod-eq_of_lt (omega (arith, long)) in
      let rest =
        compress_parts-frames parts (counted (length (frame part)) st) k.1 (omega (arith, long)) in
      rw (k.0.compressed, compress_parts)
        (rw rest (
          ap (λ n. done (frame part ++ frames parts, record st { ts_compress = n }))
            (omega (arith, long))))

  abbrev pub behind_part : Bool → Part → Progress → Progress
  behind_part verify part pr =
      next_progress p lz4 extend verify
        (record {
          content = part.source;
          frame = frame part;
          state = behind_frame p lz4 extend (frame part) pr.state;
        })
        (pr.out ++ part.source) pr

  -- One round of the loop, over a frame.
  pub round :
      (fuel : ℕ) (value : ByteArray) (verify : Bool) (pr : Progress) (part : Part) (rest : List ℕ)
      → IsPacked lz4 part
      → drop pr.offset_in (source_of value) ≡ frame part ++ rest
      → pr.state.ts_uncompress ≡ pr.offset_in
      → (pr.state.ts_uncompress == value.size_compressed) ≡ false
      → length pr.out + length part.source ≤ value.size
      → uncompress_frames p lz4 extend (suc fuel) value verify pr
        ≡ uncompress_frames p lz4 extend fuel value verify (behind_part verify part pr)
  unfolding uncompress_frames is_uncompression_done
  round fuel value verify pr part rest k here same more fits = rw more (
      rw (ap has_frame_header_disabled_compression here ∙ frame-enabled p lz4 extend part rest k) (
        rw
          (uncompress-frame p lz4 extend part rest (source_of value) value.size_compressed pr.state
            k (ap (λ n. drop n (source_of value)) same ∙ here) more)
          (rw (le→ltb value.size (length pr.out + length part.source) fits) refl)))

  one_more : (m n : ℕ) → suc m + n ≡ suc (m + n)
  one_more m n = omega arith

  none_more : (n : ℕ) → 0 + n ≡ n
  none_more n = omega arith

  at_end :
      (fuel : ℕ) (value : ByteArray) (verify : Bool) (pr : Progress)
      → (pr.state.ts_uncompress == value.size_compressed) ≡ true
      → uncompress_frames p lz4 extend (suc fuel) value verify pr
        ≡ some (check_end p lz4 extend value verify pr)
  unfolding uncompress_frames is_uncompression_done
  at_end fuel value verify pr e = rw e refl

  -- The progress behind all the parts.
  unfoldable pub behind_parts : Bool → List Part → Progress → Progress
  behind_parts verify [] pr = pr
  behind_parts verify (part ∷ parts) pr = behind_parts verify parts (behind_part verify part pr)

  pub behind_parts-out :
      (verify : Bool) (parts : List Part) (pr : Progress)
      → (behind_parts verify parts pr).out ≡ pr.out ++ sources parts
  unfolding behind_parts sources
  behind_parts-out verify [] pr = sym (append-nil pr.out)
  behind_parts-out verify (part ∷ parts) pr =
      behind_parts-out verify parts (behind_part verify part pr)
      ∙ append_assoc pr.out part.source (sources parts)

  kept_offset :
      (verify : Bool) (st : ThreadState) (c : ℕ)
      → (if verify then record st { crc32 = c } else st).ts_uncompress ≡ st.ts_uncompress
  kept_offset true st c = refl
  kept_offset false st c = refl

  pub loop-frames :
      (parts : List Part) (fuel : ℕ) (value : ByteArray) (verify : Bool) (pr : Progress)
      (tail : List ℕ)
      → All (IsPacked lz4) parts
      → drop pr.offset_in (source_of value) ≡ frames parts ++ tail
      → pr.state.ts_uncompress ≡ pr.offset_in
      → pr.offset_in + length (frames parts) ≡ value.size_compressed
      → value.size_compressed < 2 ^ 64
      → length pr.out + length (sources parts) ≤ value.size
      → uncompress_frames p lz4 extend (length parts + suc fuel) value verify pr
        ≡ some (check_end p lz4 extend value verify (behind_parts verify parts pr))
  unfolding frames sources behind_parts
  loop-frames [] fuel value verify pr tail k here same total small fits =
      ap (λ n. uncompress_frames p lz4 extend n value verify pr) (none_more (suc fuel))
      ∙ at_end fuel value verify pr (ground (arith, same, total))
  loop-frames (part ∷ parts) fuel value verify pr tail k here same total small fits =
      let long = length-append (frame part) (frames parts) in
      let there = here ∙ append_assoc (frame part) (frames parts) tail in
      let header = length-bytes_of p lz4 extend part in
      let more : (pr.state.ts_uncompress == value.size_compressed) ≡ false =
        ground (arith, same, total, long, header) in
      let written = length-append part.source (sources parts) in
      ap (λ n. uncompress_frames p lz4 extend n value verify pr)
        (one_more (length parts) (suc fuel))
      ∙ round (length parts + suc fuel) value verify pr part (frames parts ++ tail) k.0 there same
          more (omega (arith, written))
      ∙ loop-frames parts fuel value verify (behind_part verify part pr) tail k.1
          (drop-drop pr.offset_in (length (frame part)) (source_of value)
            ∙ ap (drop (length (frame part))) there
            ∙ drop-append (length (frame part)) (frame part) (frames parts ++ tail) refl)
          (kept_offset verify (behind_frame p lz4 extend (frame part) pr.state) _
            ∙ mod-eq_of_lt (omega (arith, long))
            ∙ ap (λ n. n + length (frame part)) same)
          (omega (arith, long)) small (omega (arith, written, length-append pr.out part.source))

  -- The compressed value that the storage holds: the frames of its parts, at the start of the window.
  abbrev pub Holds : ByteArray → List Part → Type 0
  Holds value parts =
      (tail : List ℕ) × (source_of value ≡ frames parts ++ tail)
      × (value.size_compressed ≡ length (frames parts))
      × (value.size ≡ length (sources parts))

  pub compressed :
      (value : ByteArray) (part : Part) (parts : List Part)
      → value.size_compressed ≡ length (frames (part ∷ parts))
      → (value.size_compressed == 0) ≡ false
  unfolding frames
  compressed value part parts total =
      ground
        (arith, total, length-append (frame part) (frames parts), length-bytes_of p lz4 extend part)

  -- Compress and UncompressByteArray undo each other. Where LZ4 gives back what it compressed, and
  -- each part, of which there is at least one, is not empty and fits its frame: Compress, called for
  -- part after part from a fresh state, makes frames of them, and counts their size; on a value that
  -- holds these frames, and without the verification of the checksum, UncompressByteArray returns the
  -- parts, one behind the other, whatever it did before; one round for each frame and one more are
  -- enough. Frames that are stored as they are, since they would grow, are among these.
  pub uncompress-compress :
      (part : Part) (parts : List Part) (fuel : ℕ) (value : ByteArray) (st st' : ThreadState)
      → All (IsPacked lz4) (part ∷ parts)
      → Holds value (part ∷ parts)
      → value.size_compressed < 2 ^ 64
      → (compress_parts (part ∷ parts) (reset_thread_local_storage st)
          ≡ done (
            frames (part ∷ parts),
            record st { ts_compress = value.size_compressed; ts_uncompress = 0 },
          ))
        × (uncompress_byte_array p lz4 extend (length (part ∷ parts) + suc fuel) value false st'
            ≡ some (done (sources (part ∷ parts))))
  unfolding reset_thread_local_storage uncompress_byte_array
  uncompress-compress part parts fuel value st st' k (tail, here, total, size) small = (
    compress_parts-frames (part ∷ parts) (reset_thread_local_storage st) k (omega (arith, total))
        ∙ ap (λ n. done (frames (part ∷ parts), record st { ts_compress = n; ts_uncompress = 0 }))
            (omega (arith, total)),
    rw (compressed value part parts total) (
        loop-frames (part ∷ parts) fuel value false (start p lz4 extend value false st') tail k here
          refl (omega (arith, total)) small (omega (arith, size))
        ∙ ap (λ o. some (done o))
            (behind_parts-out false (part ∷ parts) (start p lz4 extend value false st'))),
  )
