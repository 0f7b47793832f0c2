-- ===== src/HsTable/Recovery.antt =====
-- RecoverFile: the scan over the entries of a HSTable without a footer.
pub mod Written
pub mod Scan
pub mod Checksum
pub mod Rewrite
pub mod Rewritten
mod Runs
use kingdb.Prelude.{
  ℕ, zero, suc, ◌+◌, ◌-◌, ◌%◌, ◌^◌, Bool, true, false, not, ◌&&◌, ◌||◌, Option, none, some, List,
  [], ◌∷◌, ◌++◌, length, take, drop, ◌==◌, if◌then◌else◌,
}
use kingdb.Coding.{Platform}
use kingdb.Options.{DatabaseOptions, ReadOptions}
use kingdb.Reader.{Read, done, failed, out_of_bounds}
use kingdb.Format.Checksums.{Checksums}
use kingdb.Format.Entry.{
  EntryHeader, decode_from, are_sizes_valid, is_uncompacted, has_padding, size_value_used,
  size_value_offset,
}
use kingdb.Format.Row.{OffsetArrayRow}
use kingdb.HsTable.OffsetArray.{Index, location}

-- The local variables of the loop, and the index.
pub record Recovery : Type 0 where
  pub offset : ℕ
  pub offarray_current : List OffsetArrayRow
  pub has_padding_in_values : Bool
  pub has_invalid_entries : Bool
  pub index : Index

abbrev pub verifying : ReadOptions
verifying = record { verify_checksums = true }

module _ (p : Platform) (cs : Checksums) (db_options : DatabaseOptions) (file : List ℕ)
    (fileid : ℕ) where
  -- The checksum of an entry, over all but the first five bytes of its header.
  unfoldable pub is_crc32_valid : ℕ → EntryHeader → ℕ → Bool
  is_crc32_valid offset h size_header =
      h.checksum_content
      == cs.crc32_value
          (take (size_header + h.size_key + size_value_used h - 5) (drop (offset + 5) file))

  -- An entry that has been decoded: into the index, or counted as invalid. The offset is a
  -- `uint32_t`.
  unfoldable pub visit : EntryHeader → ℕ → Recovery → Recovery
  unfolding is_crc32_valid
  visit h size_header r =
      let keep = not (is_uncompacted h) || is_crc32_valid r.offset h size_header in
      record {
        offset = (r.offset + size_header + h.size_key + size_value_offset h) % 2 ^ 32;
        offarray_current =
            if keep
            then r.offarray_current
              ++ (record { hashed_key = h.hash; offset_entry = r.offset } ∷ [])
            else r.offarray_current;
        has_padding_in_values = r.has_padding_in_values || has_padding h;
        has_invalid_entries = r.has_invalid_entries || not keep;
        index = if keep then r.index ++ ((h.hash, location fileid r.offset) ∷ []) else r.index;
      }

  -- The loop, on fuel: `none` is a loop that is still running.
  unfoldable pub scan : ℕ → Recovery → Option (Read Recovery)
  unfolding visit
  scan zero r = none
  scan (suc fuel) r = elim (decode_from p cs db_options verifying (drop r.offset file)) [
    | failed s ↦ some (done r)
    | out_of_bounds ↦ some out_of_bounds
    | done (h, size_header) ↦
        let rest = scan fuel (visit h size_header r) in
        if are_sizes_valid r.offset (length file) h then rest else some (done r)
  ]
