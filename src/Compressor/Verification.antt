-- ===== src/Compressor/Verification.antt =====
-- The checksum that UncompressByteArray compares.
use kingdb.Prelude.{
  ℕ, suc, ◌+◌, ◌^◌, ◌<◌, ◌≡◌, ◌≢◌, refl, sym, ap, ◌∙◌, arith, true, false, some, List, [], ◌∷◌, All,
  length, ◌==◌, ==_iff,
}
use kingdb.Coding.{Platform}
use kingdb.Reader.{failed}
use kingdb.ByteArray.{ByteArray}
use kingdb.Compressor.{
  Lz4, ThreadState, Progress, uncompress_byte_array, start, check_end, invalid_checksum,
  reset_thread_local_storage,
}
use kingdb.Compressor.Frames.{Part, IsPacked, bytes_of}
use kingdb.Compressor.RoundTrip.{Holds, behind_part, behind_parts, loop-frames, compressed}

different : (a b : ℕ) → a ≢ b → (b == a) ≡ false
different a b h = ground (arith, ==_iff b a)

module _ (p : Platform) (lz4 : Lz4) (extend : ℕ → List ℕ → ℕ) where
  -- The CRC of the frames, each streamed once, and each streamed twice.
  unfoldable pub once : ℕ → List Part → ℕ
  once crc [] = crc
  once crc (part ∷ parts) = once (extend crc (bytes_of p lz4 extend part)) parts

  unfoldable pub twice : ℕ → List Part → ℕ
  twice crc [] = crc
  twice crc (part ∷ parts) =
      let frame = bytes_of p lz4 extend part in twice (extend (extend crc frame) frame) parts

  behind_parts-twice :
      (parts : List Part) (pr : Progress)
      → (behind_parts p lz4 extend true parts pr).state.crc32 ≡ twice pr.state.crc32 parts
  unfolding behind_parts twice
  behind_parts-twice [] pr = refl
  behind_parts-twice (part ∷ parts) pr =
      behind_parts-twice parts (behind_part p lz4 extend true part pr)

  refused :
      (value : ByteArray) (pr : Progress)
      → value.checksum ≢ pr.state.crc32
      → check_end p lz4 extend value true pr ≡ failed invalid_checksum
  refused value pr h = rw (different value.checksum pr.state.crc32 h) refl

  -- With the verification of the checksum, UncompressByteArray refuses a compressed value whose
  -- frames are whole and whose checksum is right, since Uncompress streams each frame into the same
  -- CRC as its caller: unless the CRC of the key and the frames happens to be that of the key and
  -- the frames, each of them twice. LZ4 gives back what it compressed, and each part is not empty
  -- and fits its frame.
  pub verification_refuses :
      (part : Part) (parts : List Part) (fuel : ℕ) (value : ByteArray) (st : ThreadState)
      → All (IsPacked lz4) (part ∷ parts)
      → Holds p lz4 extend value (part ∷ parts)
      → value.size_compressed < 2 ^ 64
      → value.checksum ≡ once value.checksum_initial (part ∷ parts)
      → once value.checksum_initial (part ∷ parts) ≢ twice value.checksum_initial (part ∷ parts)
      → uncompress_byte_array p lz4 extend (length (part ∷ parts) + suc fuel) value true st
        ≡ some (failed invalid_checksum)
  unfolding uncompress_byte_array reset_thread_local_storage
  verification_refuses part parts fuel value st k (tail, here, total, size) small c differ =
      rw (compressed p lz4 extend value part parts total) (
        loop-frames p lz4 extend (part ∷ parts) fuel value true (start p lz4 extend value true st)
          tail k here refl (omega (arith, total)) small (omega (arith, size))
        ∙ ap some (
            refused value
              (behind_parts p lz4 extend true (part ∷ parts) (start p lz4 extend value true st))
              (λ e. differ (
                sym c ∙ e ∙ behind_parts-twice (part ∷ parts) (start p lz4 extend value true st)))))
