-- ===== src/Compressor/Frames.antt =====
-- A frame that Compress wrote is read by Uncompress.
use kingdb.Prelude.{
  ℕ, suc, ◌+◌, ◌-◌, ◌%◌, ◌^◌, ◌<◌, ◌≡◌, refl, sym, ap, ◌∙◌, arith, true, false, Option, some, List,
  ◌++◌, length, take, drop, length-append, take-append, drop-append, drop-drop, append_assoc, ltb,
  le→ltb, ◌==◌, if◌then◌else◌, Bool-cases, inl, inr,
}
use native.Mathlib.Nat.{mod-eq_of_lt}
use kingdb.Coding.{Platform, encode_fixed32, get_fixed32, to_memory}
use kingdb.Coding.Fixed.{get_fixed32-encode_fixed32, encode_fixed32-to_memory, length-to_memory}
use kingdb.Reader.{Read, done}
use kingdb.Compressor.{
  Lz4, ThreadState, Frame, frame_of, leave_frame, read_frame, uncompress, has_null_bytes,
  has_frame_header_disabled_compression,
}

length-fixed32 : (p : Platform) (v : ℕ) → length (encode_fixed32 p v) ≡ 4
length-fixed32 p v = ap length (encode_fixed32-to_memory p v) ∙ length-to_memory p 4 v

-- A part of a value, and the block that LZ4 makes of it.
pub record Part : Type 0 where
  pub source : List ℕ
  pub packed : List ℕ

-- LZ4 gives back what it compressed, and the part is not empty and fits a frame.
pub record IsPacked (lz4 : Lz4) (part : Part) : Type 0 where
  pub compressed :
      lz4.compress part.source (lz4.bound (length part.source) % 2 ^ 32) ≡ some part.packed
  pub decompressed : lz4.decompress part.packed (length part.source) ≡ some part.source
  pub nonempty : 0 < length part.source
  pub source_small : length part.source + 8 < 2 ^ 32
  pub packed_small : length part.packed + 8 < 2 ^ 32

module _ (p : Platform) (lz4 : Lz4) (extend : ℕ → List ℕ → ℕ) where
  abbrev pub bytes_of : Part → List ℕ
  bytes_of part = frame_of p lz4 extend part.source part.packed

  -- What is behind the header of a frame: its two numbers and its body.
  module _ (a b : ℕ) (body rest file : List ℕ) (offset : ℕ) (small_a : a < 2 ^ 32)
      (small_b : b < 2 ^ 32)
      (here : drop offset file ≡ (encode_fixed32 p a ++ (encode_fixed32 p b ++ body)) ++ rest) where
    flat : drop offset file ≡ encode_fixed32 p a ++ (encode_fixed32 p b ++ (body ++ rest))
    flat = here ∙ simp append_assoc

    first_number : get_fixed32 p (drop offset file) ≡ some a
    first_number = ap (get_fixed32 p) flat ∙ get_fixed32-encode_fixed32 p a _ small_a

    behind_four : drop (offset + 4) file ≡ encode_fixed32 p b ++ (body ++ rest)
    behind_four =
        drop-drop offset 4 file
        ∙ ap (drop 4) flat
        ∙ drop-append 4 (encode_fixed32 p a) _ (length-fixed32 p a)

    second_number : get_fixed32 p (drop (offset + 4) file) ≡ some b
    second_number = ap (get_fixed32 p) behind_four ∙ get_fixed32-encode_fixed32 p b _ small_b

    behind_eight : drop (offset + 8) file ≡ body ++ rest
    behind_eight =
        ap (λ n. drop n file) (four_more offset)
        ∙ drop-drop (offset + 4) 4 file
        ∙ ap (drop 4) behind_four
        ∙ drop-append 4 (encode_fixed32 p b) (body ++ rest) (length-fixed32 p b)
      where
        four_more : (n : ℕ) → n + 8 ≡ n + 4 + 4
        four_more n = omega arith

    whole :
        (n : ℕ)
        → n ≡ length body + 8
        → take n (drop offset file) ≡ encode_fixed32 p a ++ (encode_fixed32 p b ++ body)
    whole n e =
        ap (take n) here
        ∙ take-append n (encode_fixed32 p a ++ (encode_fixed32 p b ++ body)) rest (
            omega (
              arith,
              e,
              length-append (encode_fixed32 p a) (encode_fixed32 p b ++ body),
              length-append (encode_fixed32 p b) body,
              length-fixed32 p a,
              length-fixed32 p b,
            ))

    body_there : take (length body) (drop (offset + 8) file) ≡ body
    body_there = ap (take (length body)) behind_eight ∙ take-append (length body) body rest refl

    body_long : ltb (length (drop (offset + 8) file)) (length body) ≡ false
    body_long =
        le→ltb (length (drop (offset + 8) file)) (length body)
          (omega (arith, ap length behind_eight, length-append body rest))

  -- The state behind a frame.
  abbrev pub behind_frame : List ℕ → ThreadState → ThreadState
  behind_frame frame st = record st {
    crc32 = extend st.crc32 frame;
    ts_uncompress = (st.ts_uncompress + length frame) % 2 ^ 64;
  }

  abbrev pub reads_as : Part → ThreadState → Read (Option Frame)
  reads_as part st = done (
      some (record {
        content = part.source;
        frame = bytes_of part;
        state = behind_frame (bytes_of part) st;
      }))

  pub length-bytes_of :
      (part : Part)
      → length (bytes_of part)
        ≡ (if ltb (length part.source) (length part.packed)
            then length part.source
            else length part.packed)
          + 8
  unfolding frame_of
  length-bytes_of part = elim (Bool-cases (ltb (length part.source) (length part.packed))) [
    | inl e ↦ rw e (
        omega (
          arith,
          length-append (encode_fixed32 p 0)
              (encode_fixed32 p (length part.source % 2 ^ 32) ++ part.source),
          length-append (encode_fixed32 p (length part.source % 2 ^ 32)) part.source,
          length-fixed32 p 0,
          length-fixed32 p (length part.source % 2 ^ 32),
        ))
    | inr e ↦ rw e (
        omega (
          arith,
          length-append (encode_fixed32 p ((length part.packed + 8) % 2 ^ 32))
              (encode_fixed32 p (length part.source % 2 ^ 32) ++ part.packed),
          length-append (encode_fixed32 p (length part.source % 2 ^ 32)) part.packed,
          length-fixed32 p ((length part.packed + 8) % 2 ^ 32),
          length-fixed32 p (length part.source % 2 ^ 32),
        ))
  ]

  abbrev numbered : ℕ → ℕ → List ℕ → List ℕ
  numbered a b body = encode_fixed32 p a ++ (encode_fixed32 p b ++ body)

  length-numbered : (a b : ℕ) (body : List ℕ) → length (numbered a b body) ≡ length body + 8
  length-numbered a b body = omega (
    arith,
    length-append (encode_fixed32 p a) (encode_fixed32 p b ++ body),
    length-append (encode_fixed32 p b) body,
    length-fixed32 p a,
    length-fixed32 p b,
  )

  module _ (a b : ℕ) (body content rest file : List ℕ) (st : ThreadState) (small_a : a < 2 ^ 32)
      (small_b : b < 2 ^ 32) (small : length body + 8 < 2 ^ 32)
      (here : drop st.ts_uncompress file ≡ numbered a b body ++ rest) where
    abbrev result : Read (Option Frame)
    result = done (
        some (record {
          content = content;
          frame = numbered a b body;
          state = behind_frame (numbered a b body) st;
        }))

    left : leave_frame p lz4 extend file (length body) content st ≡ result
    left =
        let n : (length body + 8) % 2 ^ 32 ≡ length body + 8 = mod-eq_of_lt small in
        ap
          (λ k. done (
            some (record {
              content = content;
              frame = take k (drop st.ts_uncompress file);
              state = record st {
                crc32 = extend st.crc32 (take k (drop st.ts_uncompress file));
                ts_uncompress = (st.ts_uncompress + k) % 2 ^ 64;
              };
            })))
          n
        ∙ ap
            (λ f. done (
              some (record {
                content = content;
                frame = f;
                state = record st {
                  crc32 = extend st.crc32 f;
                  ts_uncompress = (st.ts_uncompress + (length body + 8)) % 2 ^ 64;
                };
              })))
            (whole a b body rest file st.ts_uncompress small_a small_b here (length body + 8) refl)
        ∙ ap
            (λ k. done (
              some (record {
                content = content;
                frame = numbered a b body;
                state = record st {
                  crc32 = extend st.crc32 (numbered a b body);
                  ts_uncompress = (st.ts_uncompress + k) % 2 ^ 64;
                };
              })))
            (sym (length-numbered a b body))

    raw_frame :
        a ≡ 0 → b ≡ length body → content ≡ body → read_frame p lz4 extend file a b st ≡ result
    unfolding read_frame
    raw_frame e f g =
        ap (λ n. read_frame p lz4 extend file a n st) f
        ∙ rw (ap (λ k. k == 0) e) (
            rw (body_long a b body rest file st.ts_uncompress small_a small_b here) (
              ap (λ c. leave_frame p lz4 extend file (length body) c st)
                (body_there a b body rest file st.ts_uncompress small_a small_b here ∙ sym g)
              ∙ left))

    packed_frame :
        a ≡ length body + 8
        → lz4.decompress body b ≡ some content
        → read_frame p lz4 extend file a b st ≡ result
    unfolding read_frame
    packed_frame e d =
        let nonzero : (a == 0) ≡ false = ground arith in
        let size : (a + 2 ^ 32 - 8) % 2 ^ 32 ≡ length body = omega arith in
        rw nonzero (
          rw size (
            rw (body_long a b body rest file st.ts_uncompress small_a small_b here) (
              rw (body_there a b body rest file st.ts_uncompress small_a small_b here)
                (rw d (ap (λ k. leave_frame p lz4 extend file k content st) size ∙ left)))))

    numbers_read :
        (total : ℕ)
        → (st.ts_uncompress == total) ≡ false
        → uncompress p lz4 extend file total st ≡ read_frame p lz4 extend file a b st
    unfolding uncompress
    numbers_read total n = rw n (
        rw (first_number a b body rest file st.ts_uncompress small_a small_b here)
          (rw (second_number a b body rest file st.ts_uncompress small_a small_b here) refl))

  -- The two kinds of frames.
  pub raw_bytes :
      (part : Part)
      → IsPacked lz4 part
      → ltb (length part.source) (length part.packed) ≡ true
      → bytes_of part ≡ numbered 0 (length part.source) part.source
  unfolding frame_of
  raw_bytes part k e =
      let low : length part.source % 2 ^ 32 ≡ length part.source =
        mod-eq_of_lt (omega (arith, k.source_small)) in
      rw e (ap (λ n. numbered 0 n part.source) low)

  pub packed_bytes :
      (part : Part)
      → IsPacked lz4 part
      → ltb (length part.source) (length part.packed) ≡ false
      → bytes_of part ≡ numbered (length part.packed + 8) (length part.source) part.packed
  unfolding frame_of
  packed_bytes part k e =
      let low : length part.source % 2 ^ 32 ≡ length part.source =
        mod-eq_of_lt (omega (arith, k.source_small)) in
      let stored : (length part.packed + 8) % 2 ^ 32 ≡ length part.packed + 8 =
        mod-eq_of_lt k.packed_small in
      rw e (
        ap (λ n. numbered n (length part.source % 2 ^ 32) part.packed) stored
        ∙ ap (λ n. numbered (length part.packed + 8) n part.packed) low)

  abbrev frame_result : Part → ThreadState → List ℕ → Read (Option Frame)
  frame_result part st f =
      done (some (record { content = part.source; frame = f; state = behind_frame f st }))

  pub uncompress-frame :
      (part : Part) (rest file : List ℕ) (total : ℕ) (st : ThreadState)
      → IsPacked lz4 part
      → drop st.ts_uncompress file ≡ bytes_of part ++ rest
      → (st.ts_uncompress == total) ≡ false
      → uncompress p lz4 extend file total st ≡ reads_as part st
  uncompress-frame part rest file total st k here n =
      let low : length part.source < 2 ^ 32 = omega (arith, k.source_small) in
      elim (Bool-cases (ltb (length part.source) (length part.packed))) [
        | inl e ↦
            let same = raw_bytes part k e in
            let there = here ∙ ap (λ f. f ++ rest) same in
            numbers_read 0 (length part.source) part.source part.source rest file st (omega arith)
              low k.source_small there total n
            ∙ raw_frame 0 (length part.source) part.source part.source rest file st (omega arith)
                low k.source_small there refl refl refl
            ∙ ap (frame_result part st) (sym same)
        | inr e ↦
            let same = packed_bytes part k e in
            let there = here ∙ ap (λ f. f ++ rest) same in
            numbers_read (length part.packed + 8) (length part.source) part.packed part.source rest
              file st k.packed_small low k.packed_small there total n
            ∙ packed_frame (length part.packed + 8) (length part.source) part.packed part.source
                rest file st k.packed_small low k.packed_small there refl k.decompressed
            ∙ ap (frame_result part st) (sym same)
      ]

  -- A frame's header is not that of disabled compression: the size of its data is not 0.
  null_number :
      (v n : ℕ) (rest : List ℕ)
      → 0 < v
      → v < 2 ^ 32
      → has_null_bytes (suc (suc (suc (suc n)))) (encode_fixed32 p v ++ rest) ≡ done false
  unfolding has_null_bytes to_memory
  null_number v n rest pos small = rw (encode_fixed32-to_memory p v) (ground arith)

  null_four :
      (v n : ℕ) (rest : List ℕ)
      → has_null_bytes n rest ≡ done false
      → has_null_bytes (suc (suc (suc (suc n)))) (encode_fixed32 p v ++ rest) ≡ done false
  unfolding has_null_bytes to_memory
  null_four v n rest h = rw (encode_fixed32-to_memory p v) (ground arith)

  numbered-enabled :
      (a b : ℕ) (body rest : List ℕ)
      → 0 < b
      → b < 2 ^ 32
      → has_frame_header_disabled_compression (numbered a b body ++ rest) ≡ done false
  unfolding has_frame_header_disabled_compression
  numbered-enabled a b body rest pos small =
      ap (has_null_bytes 8) (append_assoc (encode_fixed32 p a) (encode_fixed32 p b ++ body) rest)
      ∙ null_four a 4 ((encode_fixed32 p b ++ body) ++ rest) (
          ap (has_null_bytes 4) (append_assoc (encode_fixed32 p b) body rest)
          ∙ null_number b 0 (body ++ rest) pos small)

  pub frame-enabled :
      (part : Part) (rest : List ℕ)
      → IsPacked lz4 part
      → has_frame_header_disabled_compression (bytes_of part ++ rest) ≡ done false
  frame-enabled part rest k = elim (Bool-cases (ltb (length part.source) (length part.packed))) [
    | inl e ↦
        ap (λ f. has_frame_header_disabled_compression (f ++ rest)) (raw_bytes part k e)
        ∙ numbered-enabled 0 (length part.source) part.source rest k.nonempty
            (omega (arith, k.source_small))
    | inr e ↦
        ap (λ f. has_frame_header_disabled_compression (f ++ rest)) (packed_bytes part k e)
        ∙ numbered-enabled (length part.packed + 8) (length part.source) part.packed rest k.nonempty
            (omega (arith, k.source_small))
  ]
