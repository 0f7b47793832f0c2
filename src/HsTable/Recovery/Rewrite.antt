-- ===== src/HsTable/Recovery/Rewrite.antt =====
-- RecoverFile around its loop: the header that it reads before, and the array of offsets that it
-- writes behind the entries that were found.
use kingdb.Prelude.{
  ℕ, zero, suc, ◌+◌, ◌-◌, ◌%◌, ◌^◌, false, Option, none, some, List, [], ◌∷◌, ◌++◌, length, take,
  ltb, if◌then◌else◌,
}
use kingdb.Coding.{Platform}
use kingdb.Status.{Status, status_io_error}
use kingdb.Options.{DatabaseOptions}
use kingdb.Reader.{Read, done, failed, out_of_bounds}
use kingdb.Format.Checksums.{Checksums}
use kingdb.Format.Header
use kingdb.Format.Header.{HsTableHeader, get_file_type, is_type_large}
use kingdb.HsTable.OffsetArray.{Index, write_offset_array}
use kingdb.HsTable.Recovery.{Recovery, scan}

-- The file that RecoverFile leaves behind, the size that it records of it, and the index.
pub record Recovered : Type 0 where
  pub file : List ℕ
  pub filesize : ℕ
  pub index : Index

abbrev pub not_recovered : Status
not_recovered = status_io_error "Could not recover file"

unfoldable pub zeros : ℕ → List ℕ
zeros zero = []
zeros (suc n) = 0 ∷ zeros n

-- ftruncate, which fills what it adds with zeros.
abbrev pub resize : ℕ → List ℕ → List ℕ
resize n file = take n file ++ zeros (n - length file)

module _ (p : Platform) (cs : Checksums) (db_options : DatabaseOptions) (file : List ℕ)
    (fileid : ℕ) where
  abbrev pub scan_start : Index → Recovery
  scan_start index = record {
    offset = db_options.internal_hstable_header_size % 2 ^ 32;
    offarray_current = [];
    has_padding_in_values = false;
    has_invalid_entries = false;
    index = index;
  }

  abbrev pub offset_array : HsTableHeader → Recovery → List ℕ
  offset_array h r =
      write_offset_array p cs r.offarray_current r.offset (get_file_type h) r.has_padding_in_values
        r.has_invalid_entries

  abbrev pub rewritten : HsTableHeader → Recovery → Recovered
  rewritten h r = record {
    file = resize r.offset file ++ offset_array h r;
    filesize = length file + length (offset_array h r);
    index = r.index;
  }

  unfoldable pub rewrite_file : HsTableHeader → Read Recovery → Read Recovered
  rewrite_file h (done r) =
      if ltb db_options.internal_hstable_header_size r.offset
      then done (rewritten h r)
      else failed not_recovered
  rewrite_file h (failed s) = failed s
  rewrite_file h out_of_bounds = out_of_bounds

  -- RecoverFile, with its loop on fuel.
  unfoldable pub recover_file : ℕ → Index → Option (Read Recovered)
  recover_file fuel index = elim (Header.decode_from p cs file none) [
    | failed s ↦ some (failed not_recovered)
    | out_of_bounds ↦ some out_of_bounds
    | done (h, o) ↦
        if is_type_large h
        then some (failed not_recovered)
        else elim (scan p cs db_options file fileid fuel (scan_start index)) [
          | none ↦ none
          | some r ↦ some (rewrite_file h r)
        ]
  ]
