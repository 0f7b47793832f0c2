-- ===== src/Database/ValidSize/Value.antt =====
-- PutPart over PutPartValidSize: a chunk of a value is submitted part by part.
use kingdb.Prelude.{
  ℕ, zero, suc, ◌+◌, ◌%◌, ◌^◌, ◌<◌, ◌≤◌, ◌≡◌, refl, sym, ap, ◌∙◌, arith, true, false, some, List,
  [], ◌∷◌, ◌++◌, length, drop, length-append, append_assoc, append-nil, ◌==◌, All, if◌then◌else◌,
}
use mathlib.Core.Path.{subst}
use kingdb.Coding.{Platform}
use kingdb.Status.{Status, status_ok, status_io_error, is_ok}
use kingdb.Options.{DatabaseOptions, CompressionType}
use kingdb.Reader.{Read, done, failed, out_of_bounds}
use kingdb.ByteArray.{ByteArray}
use kingdb.Compressor.{Lz4}
use kingdb.Database.{ValidSizeHandler, put_part}
use kingdb.Database.Pieces.{pieces, joined, Adjacent}
use kingdb.Database.Parts.{feed, put_part-feed}
use kingdb.Database.ValidSize.{Writing, Submission, put_part_valid_size}
use kingdb.Database.ValidSize.Room.{position, space, Fits, at_part, Accepts}
use kingdb.Database.ValidSize.Accepted.{put_part_valid_size-Accepts}

-- The submissions lie one behind the other, from one position to another.
abbrev pub Chain : ℕ → List Submission → ℕ → Type 0
Chain start [] end = start ≡ end
Chain start (s ∷ ss) end = (s.offset_chunk ≡ start) × Chain (start + length s.chunk) ss end

-- What LZ4 promises where the output has the size that LZ4_compressBound gives, for a chunk of
-- `max` bytes at most.
abbrev pub Compresses : Lz4 → ℕ → Type 0
Compresses lz4 max =
    (chunk : List ℕ)
    → 0 < length chunk
    → length chunk ≤ max
    → (packed : List ℕ) × (lz4.compress chunk (lz4.bound (length chunk) % 2 ^ 32) ≡ some packed)

abbrev IsPart : ℕ → ℕ × List ℕ → Type 0
IsPart max q = (0 < length q.1) × (length q.1 ≤ max)

pieces-IsPart :
    (fuel max offset : ℕ) (bs : List ℕ)
    → 0 < max
    → All (λ q. length q.1 ≤ max) (pieces fuel max offset bs)
    → All (IsPart max) (pieces fuel max offset bs)
unfolding pieces
pieces-IsPart zero max offset bs m k = tt
pieces-IsPart (suc fuel) max offset [] m k = tt
pieces-IsPart (suc fuel) zero offset (b ∷ bs) m k = absurd (omega arith)
pieces-IsPart (suc fuel) (suc max) offset (b ∷ bs) m (small, k) = (
  (omega arith, small),
  pieces-IsPart fuel (suc max) (offset + suc max) (drop (suc max) (b ∷ bs)) m k,
)

abbrev answer : List Submission → Read Submission × Writing → Status × (Writing × List Submission)
answer sent (done s, w) = (status_ok, (w, sent ++ (s ∷ [])))
answer sent (failed status, w) = (status, (w, sent))
answer sent (out_of_bounds, w) = (status_io_error "Read behind a buffer.", (w, sent))

module _ (p : Platform) (lz4 : Lz4) (extend : ℕ → List ℕ → ℕ) (db_options : DatabaseOptions)
    (file_system_status : Status) (key : List ℕ) where
  -- The handler of a part that collects what is submitted to the write buffer.
  unfoldable pub submit : ValidSizeHandler (Writing × List Submission)
  submit chunk offset_chunk size_value (w, sent) = answer sent (
      put_part_valid_size p lz4 extend db_options false file_system_status key chunk offset_chunk
        size_value w)

-- The parts are accepted: what is submitted for them is a chain within the space of the value, and
-- behind them there is room for what is left of it.
abbrev pub Submits :
    ℕ → ℕ → Writing → List Submission → Status × (Writing × List Submission) → Type 0
Submits size_value next before sent r =
    (w : Writing) × ((ss : List Submission) × ((r ≡ (status_ok, (w, sent ++ ss)))
        × (Chain (position before) ss (position w)
            × (All (λ s. s.offset_chunk + length s.chunk ≤ space size_value) ss
                × Fits size_value next w))))

submitted :
    (size_value next : ℕ) (before : Writing) (sent : List Submission)
    (r : Read Submission × Writing)
    → Accepts size_value next before r
    → Submits size_value next before sent (answer sent r)
submitted size_value next before sent (r, w) (s, (e, (starts, (ends, (inside, fits))))) =
    (w, ((s ∷ []), (rw e refl, ((starts, rw (sym starts) (sym ends)), ((inside, tt), fits)))))

Chain-append :
    (ss ts : List Submission) (a b c : ℕ) → Chain a ss b → Chain b ts c → Chain a (ss ++ ts) c
Chain-append [] ts a b c e k = subst (λ n. Chain n ts c) (sym e) k
Chain-append (s ∷ ss) ts a b c (e, h) k = (e, Chain-append ss ts (a + length s.chunk) b c h k)

All-append :
    (P : Submission → Type 0) (ss ts : List Submission) → All P ss → All P ts → All P (ss ++ ts)
All-append P [] ts h k = k
All-append P (s ∷ ss) ts (x, h) k = (x, All-append P ss ts h k)

-- One submission more in front of those that follow.
continued :
    (size_value middle next : ℕ) (before : Writing) (sent : List Submission)
    (rest : Writing × List Submission → Status × (Writing × List Submission))
    (r : Status × (Writing × List Submission))
    → Submits size_value middle before sent r
    → ((w : Writing) (ss : List Submission)
        → Fits size_value middle w
        → Submits size_value next w ss (rest (w, ss)))
    → Submits size_value next before sent (if is_ok r.0 then rest r.1 else r)
continued size_value middle next before sent rest r (w, (ss, (e, (chain, (inside, fits))))) more =
    let (w', (ts, (e', (chain', (inside', fits'))))) = more w (sent ++ ss) fits in
    (
      w',
      (
        ss ++ ts,
        (
          rw (e, e', append_assoc) refl,
          (Chain-append ss ts _ _ _ chain chain', (All-append _ ss ts inside inside', fits')),
        ),
      ),
    )

module _ (p : Platform) (lz4 : Lz4) (extend : ℕ → List ℕ → ℕ) (db_options : DatabaseOptions)
    (file_system_status : Status) (key : List ℕ) (size_value : ℕ)
    (lz4_compression : db_options.compression ≡ CompressionType.lz4_compression)
    (compresses : Compresses lz4 db_options.storage_maximum_part_size)
    (ok : is_ok file_system_status ≡ true) (size_small : size_value < 2 ^ 62) where
  submit-Submits :
      (chunk : List ℕ) (offset : ℕ) (w : Writing) (sent : List Submission)
      → IsPart db_options.storage_maximum_part_size (offset, chunk)
      → length chunk + offset ≤ size_value
      → Fits size_value offset (at_part (offset == 0) w)
      → Submits size_value
          (length chunk + offset)
          (at_part (offset == 0) w)
          sent
          (submit p lz4 extend db_options file_system_status key chunk offset size_value (w, sent))
  unfolding submit
  submit-Submits chunk offset w sent (nonempty, small) within fits =
      let (packed, c) = compresses chunk nonempty small in
      submitted size_value (length chunk + offset) (at_part (offset == 0) w) sent _ (
        put_part_valid_size-Accepts p lz4 extend db_options chunk packed offset size_value w
          lz4_compression c nonempty within size_small file_system_status key ok fits)

  later : (offset : ℕ) (w : Writing) → 0 < offset → at_part (offset == 0) w ≡ w
  unfolding at_part
  later offset w h = rw (not_zero offset h) refl
    where
      not_zero : (n : ℕ) → 0 < n → (n == 0) ≡ false
      not_zero n h = ground arith

  feed-Submits :
      (ps : List (ℕ × List ℕ)) (offset : ℕ) (w : Writing) (sent : List Submission)
      → Adjacent offset ps
      → All (IsPart db_options.storage_maximum_part_size) ps
      → 0 < length (joined ps) + offset
      → length (joined ps) + offset ≤ size_value
      → Fits size_value offset (at_part (offset == 0) w)
      → Submits size_value (length (joined ps) + offset) (at_part (offset == 0) w) sent (
          feed db_options
            (submit p lz4 extend db_options file_system_status key)
            size_value
            ps
            (w, sent))
  unfolding feed joined
  feed-Submits [] offset w sent k parts h within fits =
      let same = later offset w (omega (arith, h)) in
      (w, ([], (rw append-nil refl, (ap position same, (tt, rw none_more (rw same at fits))))))
    where
      none_more : 0 + offset ≡ offset
      none_more = omega arith
  feed-Submits ((o, bs) ∷ ps) offset w sent (e, k) (part, parts) h within fits =
      let next : ℕ = length bs + offset in
      rw (e, total)
        (continued size_value next (length (joined ps) + next) (at_part (offset == 0) w) sent
          (feed db_options (submit p lz4 extend db_options file_system_status key) size_value ps)
          (submit p lz4 extend db_options file_system_status key bs offset size_value (w, sent))
          (submit-Submits bs offset w sent part
            (omega (arith, within, length-append bs (joined ps))) fits)
          (λ v ss f. rw (later next v (omega (arith, part.0))) at (
            feed-Submits ps next v ss (rw (comm (length bs) offset) k) parts (omega (arith, part.0))
              (omega (arith, within, length-append bs (joined ps)))
              (rw (later next v (omega (arith, part.0))) f))))
    where
      comm : (a b : ℕ) → a + b ≡ b + a
      comm a b = omega arith

      total : length (bs ++ joined ps) + offset ≡ length (joined ps) + (length bs + offset)
      total = omega (arith, length-append bs (joined ps))

  -- PutPart over PutPartValidSize accepts a chunk of a value above the maximum size of a part, if
  -- what was left of the value fitted in its space: it ends with the status OK; what it submits,
  -- part by part, are pieces that lie one behind the other and within the space of the value, from
  -- where the thread was to where it now is; and what is left of the value behind the chunk fits
  -- again. Compression is on, LZ4 compresses every chunk that is not empty and not above that maximum,
  -- the chunk starts at its resource and is not empty, and the value has less than 2 ^ 62 bytes.
  pub put_part-Submits :
      (chunk : ByteArray) (offset_chunk : ℕ) (w : Writing) (sent : List Submission)
      → chunk.offset ≡ 0
      → chunk.size ≡ length chunk.resource
      → 0 < chunk.size
      → 0 < db_options.storage_maximum_part_size
      → db_options.storage_maximum_part_size < size_value
      → chunk.size + offset_chunk ≤ size_value
      → Fits size_value offset_chunk (at_part (offset_chunk == 0) w)
      → (r : Status × (Writing × List Submission)) × ((put_part db_options
              (submit p lz4 extend db_options file_system_status key)
              false
              chunk
              offset_chunk
              size_value
              (w, sent)
            ≡ some r)
          × Submits size_value (chunk.size + offset_chunk) (at_part (offset_chunk == 0) w) sent r)
  put_part-Submits chunk offset_chunk w sent o e nonempty m large within fits =
      let (fed, whole, small, adjacent) =
        put_part-feed db_options (submit p lz4 extend db_options file_system_status key) chunk
          offset_chunk size_value (w, sent) o e m large (omega arith) (omega arith) (omega arith) in
      let parts =
        pieces (suc chunk.size) db_options.storage_maximum_part_size offset_chunk chunk.resource in
      let size : length (joined parts) ≡ chunk.size = ap length whole ∙ sym e in
      (
        _,
        (
          fed,
          rw size at (
              feed-Submits parts offset_chunk w sent adjacent (pieces-IsPart _ _ _ _ m small)
                (omega (arith, size, nonempty)) (omega (arith, size, within)) fits),
        ),
      )
